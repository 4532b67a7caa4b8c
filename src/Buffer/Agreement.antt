-- ===== src/Buffer/Agreement.antt =====
-- Causal replicas agree: the buffered intake of a set of writes leaves the merge of that set.
use distributed_key_value_st.Prelude.{
  String, ◌≡◌, ◌⊎◌, ◌↔◌, inl, inr, refl, sym, All-of_mem, subst, List, [], ◌∷◌, All, map, Memᴰ,
  some, Bool-cases, mem-append_right, mem-middle_of, mem-map, mem-map_inv,
}
use distributed_key_value_st.Store
use distributed_key_value_st.Store.{Store, Value}
use distributed_key_value_st.Store.Converge.{
  Write, apply_from, IsMergeOf, IsMergeOf-unique, UniquelyStamped,
}
use distributed_key_value_st.Buffer.{
  Buffer, PendingWrite, deps_satisfied, apply_locked, receive, new,
}
use distributed_key_value_st.Buffer.Run.{Run, stay, take}
use distributed_key_value_st.Buffer.Drain.{drain_locked_lem}
use distributed_key_value_st.Buffer.Causal.{
  effective, apply_locked-eq-apply, timestamp-effective, HoldsStamped,
}
use distributed_key_value_st.Buffer.Delivery.{
  receive_all, receive_met, receive_unmet, receive_all-Accounted, receive-held,
}
use distributed_key_value_st.Buffer.Liveness.{IsComplete, receive_all-empties}

-- What a received write puts into the store.
abbrev pub write_of : PendingWrite → Write
write_of p = (p.key, effective p.val)

-- The write is one of the received.
abbrev pub IsFrom : List PendingWrite → String → Value → Type 0
IsFrom ps k v = (p : PendingWrite) × Memᴰ p ps × (◌≡◌ {A = Write} (k, v) (write_of p))

apply_locked_from :
    (s : Store) (p : PendingWrite) (k : String) (v : Value)
    → (apply_locked s p.key p.val).entries k ≡ some v
    → (s.entries k ≡ some v) ⊎ (◌≡◌ {A = Write} (k, v) (write_of p))
apply_locked_from s p k v h =
    apply_from s p.key k (effective p.val) v (rw apply_locked-eq-apply at h)

Run-IsFrom :
    {b c : Buffer} {applied : List PendingWrite} (ps : List PendingWrite) (k : String) (v : Value)
    → Run b applied c
    → ((q : PendingWrite) → Memᴰ q b.held → Memᴰ q ps)
    → c.store.entries k ≡ some v
    → (b.store.entries k ≡ some v) ⊎ IsFrom ps k v
Run-IsFrom ps k v stay sub h = inl h
Run-IsFrom {b} ps k v (take p xs ys e met run) sub h =
    elim (Run-IsFrom ps k v run (λ q m. sub q (rw e (mem-middle_of p xs ys m))) h) [
      | inr from ↦ inr from
      | inl before ↦ elim (apply_locked_from b.store p k v before) [
        | inl old ↦ inl old
        | inr this ↦ inr (p, sub p (rw e (mem-append_right xs (Memᴰ.head refl))), this)
      ]
    ]

pub receive-IsFrom :
    (ps : List PendingWrite) (b : Buffer) (p : PendingWrite) (k : String) (v : Value)
    → ((q : PendingWrite) → Memᴰ q b.held → Memᴰ q ps)
    → Memᴰ p ps
    → (receive b p.key p.val).0.store.entries k ≡ some v
    → (b.store.entries k ≡ some v) ⊎ IsFrom ps k v
receive-IsFrom ps b p k v sub mem h = elim (Bool-cases (deps_satisfied b.store p.val.deps)) [
  | inr unmet ↦ inl (rw (receive_unmet b p.key p.val unmet) at h)
  | inl met ↦
      elim (Run-IsFrom ps k v
        (drain_locked_lem (record b { store = apply_locked b.store p.key p.val })).0.1 sub
        (rw (receive_met b p.key p.val met) at h)) [
          | inr from ↦ inr from
          | inl before ↦ elim (apply_locked_from b.store p k v before) [
            | inl old ↦ inl old
            | inr this ↦ inr (p, mem, this)
          ]
        ]
]

receive_all-IsFrom :
    (rs : List PendingWrite) (b : Buffer) (ps : List PendingWrite) (k : String) (v : Value)
    → ((q : PendingWrite) → Memᴰ q b.held → Memᴰ q rs)
    → ((q : PendingWrite) → Memᴰ q ps → Memᴰ q rs)
    → (receive_all b ps).store.entries k ≡ some v
    → (b.store.entries k ≡ some v) ⊎ IsFrom rs k v
unfolding receive_all
receive_all-IsFrom rs b [] k v held sub h = inl h
receive_all-IsFrom rs b (p ∷ ps) k v held sub h =
    elim (receive_all-IsFrom rs (receive b p.key p.val).0 ps k v
      (λ q m. into q (receive-held b p.key p.val q m)) (λ q m. sub q (Memᴰ.tail m)) h) [
        | inr from ↦ inr from
        | inl before ↦ receive-IsFrom rs b p k v held (sub p (Memᴰ.head refl)) before
      ]
  where
    into : (q : PendingWrite) → Memᴰ q b.held ⊎ (q ≡ p) → Memᴰ q rs
    into q (inl m) = held q m
    into q (inr e) = sub q (Memᴰ.head e)

module _ (ps : List PendingWrite) (complete : IsComplete ps) (stamped : All HoldsStamped ps) where
  -- When a replica that starts empty has received writes, in whatever order, of which none is
  -- stamped before the zero timestamp and whose dependencies are all provided by earlier writes
  -- among them, its store is the merge of these writes: holding them back has changed nothing of
  -- the outcome.
  pub receive_all-IsMergeOf : IsMergeOf (receive_all (new Store.new) ps).store (map write_of ps)
  receive_all-IsMergeOf = record {
    written = λ k v h.
        elim (receive_all-IsFrom ps (new Store.new) ps k v (λ q m. elim m [ ]) (λ q m. m) h) [
          | inl e ↦ cc
          | inr (p, mem, e) ↦
              subst (λ (w : Write). Memᴰ w (map write_of ps)) (sym e) (mem-map write_of mem)
        ];
    covered = λ w m.
        let (p, mem, e) = mem-map_inv write_of ps m in
        elim (receive_all-Accounted p (new Store.new) ps mem) [
          | inl held ↦ absurd (not_held p held)
          | inr covered ↦ rw (e, timestamp-effective) covered
        ];
  }
    where
      not_held : (p : PendingWrite) → ¬ Memᴰ p (receive_all (new Store.new) ps).held
      not_held p m = elim (rw (receive_all-empties ps complete stamped) at m) [ ]

moved :
    (ps qs : List PendingWrite) (w : Write)
    → ((p : PendingWrite) → Memᴰ p ps → Memᴰ p qs)
    → Memᴰ w (map write_of ps)
    → Memᴰ w (map write_of qs)
moved ps qs w sub m =
    let (p, mem, e) = mem-map_inv write_of ps m in
    subst (λ (v : Write). Memᴰ v (map write_of qs)) (sym e) (mem-map write_of (sub p mem))

pub All-of_sub :
    (ps qs : List PendingWrite)
    → ((p : PendingWrite) → Memᴰ p qs → Memᴰ p ps)
    → All HoldsStamped ps
    → All HoldsStamped qs
All-of_sub ps [] sub h = tt
All-of_sub ps (q ∷ qs) sub h = (
  All-of_mem HoldsStamped ps q h (sub q (Memᴰ.head refl)),
  All-of_sub ps qs (λ p m. sub p (Memᴰ.tail m)) h,
)

IsComplete-same :
    (ps qs : List PendingWrite)
    → ((p : PendingWrite) → Memᴰ p ps ↔ Memᴰ p qs)
    → IsComplete ps
    → IsComplete qs
IsComplete-same ps qs same complete p dep mem at = elim (complete p dep ((same p).1 mem) at) [
  | inl zero ↦ inl zero
  | inr (w, m, key, enough, before) ↦ inr (w, (same w).0 m, key, enough, before)
]

-- Two causal replicas that start empty and receive the same writes, each in an order and as often
-- as the network gives them, end with the same store, if every dependency is provided by an
-- earlier write among them, no write is stamped before the zero timestamp, and a key and a
-- timestamp name one write.
pub causal_replicas_agree :
    (ps qs : List PendingWrite)
    → ((p : PendingWrite) → Memᴰ p ps ↔ Memᴰ p qs)
    → IsComplete ps
    → All HoldsStamped ps
    → UniquelyStamped (map write_of ps)
    → (receive_all (new Store.new) ps).store ≡ (receive_all (new Store.new) qs).store
causal_replicas_agree ps qs same complete stamped unique =
    IsMergeOf-unique _ _ (map write_of ps) (map write_of qs) unique
      (λ w. (moved ps qs w (λ p. (same p).0), moved qs ps w (λ p. (same p).1)))
      (receive_all-IsMergeOf ps complete stamped)
      (receive_all-IsMergeOf qs (IsComplete-same ps qs same complete)
        (All-of_sub ps qs (λ p. (same p).1) stamped))
