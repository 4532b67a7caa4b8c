-- ===== src/Buffer/Delivery.antt =====
-- What `Receive` does with a write, on both branches, and a replica's whole intake: nothing that was
-- received is lost.
use mathlib.Core.List.{Memᴰ}
use distributed_key_value_st.Prelude.{
  String, ◌≡◌, ◌⊎◌, inl, inr, refl, subst, true, false, List, [], ◌∷◌, ◌++◌, All, All-of_mem, ap,
  Bool-cases, eq_refl, mem-middle, mem-middle_of, mem-append_left, mem-append_right, mem-snoc,
  All-snoc,
}
use distributed_key_value_st.Hlc.{Timestamp}
use distributed_key_value_st.Store.{Store, Value}
use distributed_key_value_st.Store.Merge.{Covers, merge, Covers-merge_self, entries-apply-merge}
use distributed_key_value_st.Store.Converge.{Covers-apply}
use distributed_key_value_st.Buffer.{
  Buffer, PendingWrite, deps_satisfied, apply_locked, drain_locked, receive,
}
use distributed_key_value_st.Buffer.Run.{Run, stay, take}
use distributed_key_value_st.Buffer.Drain.{IsDrained, IsBlocked, drain_locked_lem}
use distributed_key_value_st.Buffer.Causal.{
  effective, apply_locked-eq-apply, timestamp-effective, HoldsStamped, IsValid, receive-IsValid,
}

unfoldable pub receive_all : Buffer → List PendingWrite → Buffer
receive_all b [] = b
receive_all b (p ∷ ps) = receive_all (receive b p.key p.val).0 ps

-- A received write is held, or its key is at its version or a later one.
abbrev pub Accounted : Buffer → PendingWrite → Type 0
Accounted b p = Memᴰ p b.held ⊎ Covers (b.store.entries p.key) p.val.timestamp

Covers-apply_locked :
    (s : Store) (key k : String) (val : Value) (ts : Timestamp)
    → Covers (s.entries k) ts
    → Covers ((apply_locked s key val).entries k) ts
Covers-apply_locked s key k val ts h =
    rw apply_locked-eq-apply (Covers-apply s key k (effective val) ts h)

apply_locked-Covers :
    (s : Store) (p : PendingWrite)
    → Covers ((apply_locked s p.key p.val).entries p.key) p.val.timestamp
apply_locked-Covers s p =
    rw (apply_locked-eq-apply, entries-apply-merge, eq_refl)
      (subst (Covers (merge (s.entries p.key) (effective p.val))) (timestamp-effective p.val)
        (Covers-merge_self (s.entries p.key) (effective p.val)))

pub Run-Covers :
    {b c : Buffer} {applied : List PendingWrite} (k : String) (ts : Timestamp)
    → Run b applied c
    → Covers (b.store.entries k) ts
    → Covers (c.store.entries k) ts
Run-Covers k ts stay h = h
Run-Covers {b} k ts (take p xs ys e met run) h =
    Run-Covers k ts run (Covers-apply_locked b.store p.key k p.val ts h)

pub Run-Accounted :
    {b c : Buffer} {applied : List PendingWrite} (q : PendingWrite)
    → Run b applied c
    → Accounted b q
    → Accounted c q
Run-Accounted q stay h = h
Run-Accounted {b} q (take p xs ys e met run) (inr h) =
    Run-Accounted q run (inr (Covers-apply_locked b.store p.key q.key p.val q.val.timestamp h))
Run-Accounted {b} q (take p xs ys e met run) (inl m) =
    Run-Accounted q run (elim (mem-middle p xs ys (rw e at m)) [
      | inl same ↦ inr (rw same (apply_locked-Covers b.store p))
      | inr other ↦ inl other
    ])

pub Run-held :
    {b c : Buffer} {applied : List PendingWrite} (q : PendingWrite)
    → Run b applied c
    → Memᴰ q c.held
    → Memᴰ q b.held
Run-held q stay m = m
Run-held q (take p xs ys e met run) m = rw e (mem-middle_of p xs ys (Run-held q run m))

module _ (b : Buffer) (key : String) (val : Value) where
  abbrev this : PendingWrite
  this = record { key = key; val = val }

  abbrev with_this : Buffer
  with_this = record b { store = apply_locked b.store key val }

  pub receive_met :
      deps_satisfied b.store val.deps ≡ true → receive b key val ≡ (drain_locked with_this, true)
  unfolding receive
  receive_met h = rw h

  pub receive_unmet :
      deps_satisfied b.store val.deps ≡ false
      → receive b key val ≡ (record b { held = b.held ++ this ∷ [] }, false)
  unfolding receive
  receive_unmet h = rw h

  pub receive-Covers :
      (k : String) (ts : Timestamp)
      → Covers (b.store.entries k) ts
      → Covers ((receive b key val).0.store.entries k) ts
  receive-Covers k ts c = elim (Bool-cases (deps_satisfied b.store val.deps)) [
    | inl met ↦ rw (receive_met met) (
        Run-Covers k ts (drain_locked_lem with_this).0.1
          (Covers-apply_locked b.store key k val ts c))
    | inr unmet ↦ rw (receive_unmet unmet) c
  ]

  pub receive-Accounted_self : Accounted (receive b key val).0 this
  receive-Accounted_self = elim (Bool-cases (deps_satisfied b.store val.deps)) [
    | inl met ↦ rw (receive_met met) (
        Run-Accounted this (drain_locked_lem with_this).0.1
          (inr (apply_locked-Covers b.store this)))
    | inr unmet ↦ rw (receive_unmet unmet) (inl (mem-append_right b.held (Memᴰ.head refl)))
  ]

  pub receive-Accounted : (q : PendingWrite) → Accounted b q → Accounted (receive b key val).0 q
  receive-Accounted q h = elim (Bool-cases (deps_satisfied b.store val.deps)) [
    | inl met ↦ rw (receive_met met) (
        Run-Accounted q (drain_locked_lem with_this).0.1 (elim h [
          | inl m ↦ inl m
          | inr c ↦ inr (Covers-apply_locked b.store key q.key val q.val.timestamp c)
        ]))
    | inr unmet ↦
        rw (receive_unmet unmet)
          (elim h [ inl m ↦ inl (mem-append_left (this ∷ []) m) | inr c ↦ inr c ])
  ]

  -- What is held after a receipt was held before it, or is the write received.
  pub receive-held :
      (q : PendingWrite) → Memᴰ q (receive b key val).0.held → Memᴰ q b.held ⊎ (q ≡ this)
  receive-held q m = elim (Bool-cases (deps_satisfied b.store val.deps)) [
    | inl met ↦ inl (Run-held q (drain_locked_lem with_this).0.1 (rw (receive_met met) at m))
    | inr unmet ↦ mem-snoc b.held (rw (receive_unmet unmet) at m)
  ]

  -- A write held after a receipt could not be applied, unless the receipt was itself held back, and
  -- the write was there before.
  pub receive-IsBlocked :
      (q : PendingWrite)
      → Memᴰ q (receive b key val).0.held
      → IsBlocked (receive b key val).0.store q
        ⊎ (((receive b key val).0.held ≡ b.held ++ this ∷ []) × Memᴰ q b.held)
  receive-IsBlocked q m = elim (Bool-cases (deps_satisfied b.store val.deps)) [
    | inl met ↦ inl (
        All-of_mem (IsBlocked (receive b key val).0.store) (receive b key val).0.held q
          (rw (receive_met met) (drain_locked_lem with_this).1) m)
    | inr unmet ↦ elim (mem-snoc b.held (rw (receive_unmet unmet) at m)) [
      | inl old ↦ inr (ap (λ r. r.0.held) (receive_unmet unmet), old)
      | inr new ↦ inl (rw (receive_unmet unmet, new) unmet)
    ]
  ]

  -- If no held write could be applied before a receipt, none can be after it.
  receive-IsDrained : IsDrained b → IsDrained (receive b key val).0
  receive-IsDrained d = elim (Bool-cases (deps_satisfied b.store val.deps)) [
    | inl met ↦ rw (receive_met met) (drain_locked_lem with_this).1
    | inr unmet ↦ rw (receive_unmet unmet) (All-snoc (IsBlocked b.store) b.held this d unmet)
  ]

module _ (q : PendingWrite) where
  receive_all-Accounted_old :
      (b : Buffer) (ps : List PendingWrite) → Accounted b q → Accounted (receive_all b ps) q
  unfolding receive_all
  receive_all-Accounted_old b [] h = h
  receive_all-Accounted_old b (p ∷ ps) h =
      receive_all-Accounted_old (receive b p.key p.val).0 ps (receive-Accounted b p.key p.val q h)

  -- After any intake every received write is held, or its key is at its version or a later one.
  pub receive_all-Accounted :
      (b : Buffer) (ps : List PendingWrite) → Memᴰ q ps → Accounted (receive_all b ps) q
  unfolding receive_all
  receive_all-Accounted b [] m = elim m [ ]
  receive_all-Accounted b (p ∷ ps) (Memᴰ.head e) =
      receive_all-Accounted_old (receive b p.key p.val).0 ps
        (rw e (receive-Accounted_self b p.key p.val))
  receive_all-Accounted b (p ∷ ps) (Memᴰ.tail m) =
      receive_all-Accounted (receive b p.key p.val).0 ps m

  pub receive_all-held :
      (b : Buffer) (ps : List PendingWrite)
      → Memᴰ q (receive_all b ps).held
      → Memᴰ q b.held ⊎ Memᴰ q ps
  unfolding receive_all
  receive_all-held b [] m = inl m
  receive_all-held b (p ∷ ps) m = elim (receive_all-held (receive b p.key p.val).0 ps m) [
    | inr later ↦ inr (Memᴰ.tail later)
    | inl now ↦ elim (receive-held b p.key p.val q now) [
      | inl old ↦ inl old
      | inr this ↦ inr (Memᴰ.head this)
    ]
  ]

pub receive_all-IsDrained :
    (b : Buffer) (ps : List PendingWrite) → IsDrained b → IsDrained (receive_all b ps)
unfolding receive_all
receive_all-IsDrained b [] d = d
receive_all-IsDrained b (p ∷ ps) d =
    receive_all-IsDrained (receive b p.key p.val).0 ps (receive-IsDrained b p.key p.val d)

pub receive_all-IsValid :
    (b : Buffer) (ps : List PendingWrite)
    → IsValid b
    → All HoldsStamped ps
    → IsValid (receive_all b ps)
unfolding receive_all
receive_all-IsValid b [] v h = v
receive_all-IsValid b (p ∷ ps) v h =
    receive_all-IsValid (receive b p.key p.val).0 ps (receive-IsValid b p.key p.val v h.0) h.1
