-- ===== src/Buffer/Liveness.antt =====
-- No write stays in the buffer for ever: once everything that the received writes depend on has come,
-- the buffer is empty.
use distributed_key_value_st.Prelude.{
  ◌≡◌, ◌⊎◌, inl, inr, refl, true, List, [], ◌∷◌, arith, All, All-of_mem, Memᴰ,
}
use distributed_key_value_st.Hlc.{Timestamp, zero_ts}
use distributed_key_value_st.Hlc.Order.{
  Earlier, NotLater, NotLater-refl, NotLater-trans, NotLater-total, NotLater_of_Earlier,
  Earlier-trans_right, Earlier-irrefl, after_or_equal_iff,
}
use distributed_key_value_st.Store
use distributed_key_value_st.Store.{Store, Dependency}
use distributed_key_value_st.Buffer.{Buffer, PendingWrite, version, deps_satisfied, new}
use distributed_key_value_st.Buffer.Drain.{IsBlocked}
use distributed_key_value_st.Buffer.Causal.{
  HoldsStamped, IsValid, new-IsValid, zero-NotLater-version, Covers-version,
}
use distributed_key_value_st.Buffer.Delivery.{
  receive_all, receive_all-Accounted, receive_all-held, receive_all-IsDrained, receive_all-IsValid,
}

-- The dependency is on the zero version, or some write among `ps` provides it and is earlier than
-- `ts`.
abbrev pub IsProvided : List PendingWrite → Timestamp → Dependency → Type 0
IsProvided ps ts dep =
    NotLater dep.min_ts zero_ts
    ⊎ ((w : PendingWrite) × Memᴰ w ps
        × (w.key ≡ dep.key)
        × NotLater dep.min_ts w.val.timestamp
        × Earlier w.val.timestamp ts)

-- Whatever a write among `ps` depends on is provided by an earlier write among them.
abbrev pub IsComplete : List PendingWrite → Type 0
IsComplete ps =
    (p : PendingWrite) (dep : Dependency)
    → Memᴰ p ps
    → Memᴰ dep p.val.deps
    → IsProvided ps p.val.timestamp dep

All-lower :
    (x m : PendingWrite) (qs : List PendingWrite)
    → NotLater x.val.timestamp m.val.timestamp
    → All (λ q. NotLater m.val.timestamp q.val.timestamp) qs
    → All (λ q. NotLater x.val.timestamp q.val.timestamp) qs
All-lower x m [] h low = tt
All-lower x m (q ∷ qs) h low = (
  NotLater-trans x.val.timestamp m.val.timestamp q.val.timestamp h low.0,
  All-lower x m qs h low.1,
)

pub earliest :
    (x : PendingWrite) (xs : List PendingWrite)
    → (m : PendingWrite) × Memᴰ m (x ∷ xs)
      × All (λ q. NotLater m.val.timestamp q.val.timestamp) (x ∷ xs)
earliest x [] = (x, Memᴰ.head refl, (NotLater-refl x.val.timestamp, tt))
earliest x (y ∷ ys) =
    let (m, at, low) = earliest y ys in
    elim (NotLater-total m.val.timestamp x.val.timestamp) [
      | inl first ↦ (m, Memᴰ.tail at, (first, low))
      | inr later ↦ (
        x,
        Memᴰ.head refl,
        (
          NotLater-refl x.val.timestamp,
          All-lower x m (y ∷ ys) (NotLater_of_Earlier x.val.timestamp m.val.timestamp later) low,
        ),
      )
    ]

pub deps_met :
    (s : Store) (deps : List Dependency)
    → ((d : Dependency) → Memᴰ d deps → NotLater d.min_ts (version s d.key))
    → deps_satisfied s deps ≡ true
unfolding deps_satisfied
deps_met s [] h = refl
deps_met s (d ∷ deps) h = ground (
  arith,
  after_or_equal_iff (version s d.key) d.min_ts,
  h d (Memᴰ.head refl),
  deps_met s deps (λ e m. h e (Memᴰ.tail m)),
)

module _ (ps : List PendingWrite) (complete : IsComplete ps) (stamped : All HoldsStamped ps) where
  abbrev final : Buffer
  final = receive_all (new Store.new) ps

  final-IsValid : IsValid final
  final-IsValid = receive_all-IsValid (new Store.new) ps new-IsValid stamped

  held_received : (q : PendingWrite) → Memᴰ q final.held → Memᴰ q ps
  held_received q m = elim (receive_all-held q (new Store.new) ps m) [
    | inl old ↦ elim old [ ]
    | inr new ↦ new
  ]

  -- The earliest held write would have its dependencies met.
  earliest_met :
      (m : PendingWrite)
      → Memᴰ m final.held
      → All (λ q. NotLater m.val.timestamp q.val.timestamp) final.held
      → (d : Dependency) → Memᴰ d m.val.deps
      → NotLater d.min_ts (version final.store d.key)
  earliest_met m at low d dep = elim (complete m d (held_received m at) dep) [
    | inl zero ↦
        NotLater-trans d.min_ts zero_ts (version final.store d.key) zero
          (zero-NotLater-version final.store d.key final-IsValid.causal)
    | inr (w, mem, key, enough, before) ↦ elim (receive_all-Accounted w (new Store.new) ps mem) [
      | inl held ↦ absurd (
          Earlier-irrefl m.val.timestamp (
            Earlier-trans_right m.val.timestamp w.val.timestamp m.val.timestamp
              (All-of_mem (λ q. NotLater m.val.timestamp q.val.timestamp) final.held w low held)
              before))
      | inr covered ↦
          NotLater-trans d.min_ts w.val.timestamp (version final.store d.key) enough
            (Covers-version final.store d.key w.val.timestamp (rw key at covered))
    ]
  ]

  none_held : (held : List PendingWrite) → final.held ≡ held → held ≡ []
  none_held [] e = refl
  none_held (x ∷ xs) e =
      let (m, at, low) = earliest x xs in
      let blocked : IsBlocked final.store m =
        All-of_mem (IsBlocked final.store) final.held m
          (receive_all-IsDrained (new Store.new) ps tt) (rw e at) in
      absurd (cc (blocked, deps_met final.store m.val.deps (earliest_met m (rw e at) (rw e low))))

  -- When a replica that starts empty has received writes, in whatever order, of which none is
  -- stamped before the zero timestamp and whose dependencies are all provided by earlier writes
  -- among them, its buffer is empty.
  pub receive_all-empties : (receive_all (new Store.new) ps).held ≡ []
  receive_all-empties = none_held final.held refl
