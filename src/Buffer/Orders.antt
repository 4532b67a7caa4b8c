-- ===== src/Buffer/Orders.antt =====
-- The order in which writes are received: an intake is a run of the buffer that holds everything from
-- the start.
use mathlib.Core.List.{append_assoc, append-nil}
use distributed_key_value_st.Prelude.{
  ◌≡◌, ◌↔◌, inl, inr, refl, sym, subst, List, [], ◌∷◌, ◌++◌, map, Memᴰ, All, Bool-cases,
}
use distributed_key_value_st.Store
use distributed_key_value_st.Store.{Store, Value}
use distributed_key_value_st.Store.Converge.{UniquelyStamped}
use distributed_key_value_st.Buffer.{
  Buffer, PendingWrite, deps_satisfied, apply_locked, receive, new,
}
use distributed_key_value_st.Buffer.Run.{Run, stay, take, Run-append}
use distributed_key_value_st.Buffer.Drain.{drain_locked_lem}
use distributed_key_value_st.Buffer.Causal.{HoldsStamped, new-IsValid}
use distributed_key_value_st.Buffer.Delivery.{
  receive_all, receive_met, receive_unmet, receive_all-IsDrained,
}
use distributed_key_value_st.Buffer.Agreement.{write_of, All-of_sub}
use distributed_key_value_st.Buffer.Schedules.{runs_agree}

abbrev holding : Buffer → List PendingWrite → Buffer
holding b ps = record b { held = b.held ++ ps }

-- What else is held does not hinder a run.
Run-holding :
    {b c : Buffer} {applied : List PendingWrite} (ps : List PendingWrite)
    → Run b applied c
    → Run (holding b ps) applied (holding c ps)
Run-holding ps stay = stay
Run-holding ps (take p xs ys e met run) =
    take p xs (ys ++ ps) (rw (e, append_assoc xs (p ∷ ys) ps) refl) met
      (rw append_assoc at (Run-holding ps run))

-- A receipt is a run of the buffer with the write held.
receive-Run :
    (b : Buffer) (p : PendingWrite)
    → (applied : List PendingWrite) × Run (holding b (p ∷ [])) applied (receive b p.key p.val).0
receive-Run b p = elim (Bool-cases (deps_satisfied b.store p.val.deps)) [
  | inr unmet ↦ ([], rw (receive_unmet b p.key p.val unmet) stay)
  | inl met ↦
      let (applied, run) =
        (drain_locked_lem (record b { store = apply_locked b.store p.key p.val })).0 in
      (
        p ∷ applied,
        rw (receive_met b p.key p.val met) (take p b.held [] refl met (rw (append-nil b.held) run)),
      )
]

receive_all-Run :
    (b : Buffer) (ps : List PendingWrite)
    → (applied : List PendingWrite) × Run (holding b ps) applied (receive_all b ps)
unfolding receive_all
receive_all-Run b [] = ([], rw (append-nil b.held) stay)
receive_all-Run b (p ∷ ps) =
    let (first, run) = receive-Run b p in
    let (rest, runs) = receive_all-Run (receive b p.key p.val).0 ps in
    (first ++ rest, Run-append (rw (append_assoc b.held (p ∷ []) ps) at (Run-holding ps run)) runs)

-- Two causal replicas that start empty and have received the same writes, each in an order and as
-- often as the network gives them, have the same store and hold the same writes back, even if not
-- everything that these depend on has come, if no write is stamped before the zero timestamp and a key
-- and a timestamp name one write.
pub receive_all_same :
    (ps qs : List PendingWrite)
    → ((p : PendingWrite) → Memᴰ p ps ↔ Memᴰ p qs)
    → All HoldsStamped ps
    → UniquelyStamped (map write_of ps)
    → ((receive_all (new Store.new) ps).store ≡ (receive_all (new Store.new) qs).store)
      × ((p : PendingWrite)
          → Memᴰ p (receive_all (new Store.new) ps).held
            ↔ Memᴰ p (receive_all (new Store.new) qs).held)
receive_all_same ps qs same stamped unique =
    let (first, run) = receive_all-Run (new Store.new) ps in
    let (second, other) = receive_all-Run (new Store.new) qs in
    runs_agree Store.new [] ps qs (record { causal = new-IsValid.causal; held_stamped = stamped })
      (record {
        causal = new-IsValid.causal;
        held_stamped = All-of_sub ps qs (λ p. (same p).1) stamped;
      })
      same run other (receive_all-IsDrained (new Store.new) ps tt)
      (receive_all-IsDrained (new Store.new) qs tt)
      (record { written = λ k v e. cc; covered = λ w m. elim m [ ] })
      (subst UniquelyStamped (sym (append-nil (map write_of ps))) unique)
