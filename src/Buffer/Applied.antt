-- ===== src/Buffer/Applied.antt =====
-- What a run from a buffer applies, and what a drained one cannot have left.
use distributed_key_value_st.Prelude.{
  ◌≡◌, ◌⊎◌, ◌↔◌, inl, inr, refl, subst, true, Option, none, some, List, [], ◌∷◌, map, Memᴰ,
  Bool-cases, ◌==◌, eq_iff, All-of_mem, mem-middle, mem-middle_of, mem-append_right,
}
use distributed_key_value_st.Hlc.Order.{NotLater, NotLater-refl}
use distributed_key_value_st.Store.{Store, Value}
use distributed_key_value_st.Store.Merge.{Covers, merge_from, entries-apply-merge}
use distributed_key_value_st.Store.Converge.{Write, IsMergeOf}
use distributed_key_value_st.Store.Taken.{apply-IsMergeOf}
use distributed_key_value_st.Buffer.{Buffer, PendingWrite, version, deps_satisfied, apply_locked}
use distributed_key_value_st.Buffer.Run.{Run, stay, take}
use distributed_key_value_st.Buffer.Drain.{IsDrained, IsBlocked}
use distributed_key_value_st.Buffer.Causal.{
  Grows, effective, apply_locked-eq-apply, timestamp-effective, version_lem, cell_version, IsValid,
  Run-IsValid, deps_satisfied-Grows, Covers-version, zero-NotLater-version,
}
use distributed_key_value_st.Buffer.Delivery.{Run-Covers, Run-Accounted}
use distributed_key_value_st.Buffer.Agreement.{write_of}

-- A run only raises versions.
pub Run-Grows :
    {b c : Buffer} {applied : List PendingWrite}
    → IsValid b
    → Run b applied c
    → Grows b.store c.store
unfolding Grows
Run-Grows {b} {c} v run k = rw (version_lem b.store k) (go (b.store.entries k) refl)
  where
    go :
        (cell : Option Value)
        → b.store.entries k ≡ cell
        → NotLater (cell_version cell) (version c.store k)
    go none e = zero-NotLater-version c.store k (Run-IsValid run v).causal
    go (some u) e =
        Covers-version c.store k u.timestamp
          (Run-Covers k u.timestamp run (rw e (NotLater-refl u.timestamp)))

-- A write applied to a store stays below a store above it that covers the write.
apply_locked-below :
    (s t : Store) (p : PendingWrite)
    → Grows s t
    → Covers (t.entries p.key) p.val.timestamp
    → Grows (apply_locked s p.key p.val) t
unfolding Grows
apply_locked-below s t p g c k =
    rw (version_lem (apply_locked s p.key p.val) k, apply_locked-eq-apply, entries-apply-merge)
      (elim (Bool-cases (p.key == k)) [
        | inr other ↦ rw (other, ← version_lem s k) (g k)
        | inl same ↦ rw same (elim (merge_from (s.entries k) (effective p.val)) [
          | inl kept ↦ rw (kept, ← version_lem s k) (g k)
          | inr new ↦
              rw (new, timestamp-effective)
                (Covers-version t k p.val.timestamp
                  (subst (λ j. Covers (t.entries j) p.val.timestamp) ((eq_iff p.key k).0 same) c))
        ])
      ])

-- Two runs of one buffer, of which the second leaves nothing that it could apply: what the first has
-- applied the second does not hold.
module _ {b c : Buffer} {others : List PendingWrite} (run : Run b others c)
    (drained : IsDrained c) where
  not_held :
      (s : Store) (p : PendingWrite)
      → Grows s c.store
      → deps_satisfied s p.val.deps ≡ true
      → ¬ Memᴰ p c.held
  not_held s p below met m = cc (
    deps_satisfied-Grows s c.store p.val.deps below met,
    All-of_mem (IsBlocked c.store) c.held p drained m,
  )

  pub applied-not_held :
      {d e : Buffer} {applied : List PendingWrite}
      → Run d applied e
      → Grows d.store c.store
      → ((q : PendingWrite) → Memᴰ q d.held → Memᴰ q b.held)
      → (p : PendingWrite) → Memᴰ p applied
      → ¬ Memᴰ p c.held
  applied-not_held stay below sub p m held = elim m [ ]
  applied-not_held {d} (take q xs ys e met rest) below sub p m held =
      let mem : Memᴰ q b.held = sub q (rw e (mem-append_right xs (Memᴰ.head refl))) in
      elim m [
        | Memᴰ.head same ↦ not_held d.store q below met (subst (λ r. Memᴰ r c.held) same held)
        | Memᴰ.tail later ↦ elim (Run-Accounted q run (inl mem)) [
          | inl still ↦ not_held d.store q below met still
          | inr covered ↦
              applied-not_held rest (apply_locked-below d.store c.store q below covered)
                (λ r at. sub r (rw e (mem-middle_of q xs ys at))) p later held
        ]
      ]

pub Run-split :
    {b c : Buffer} {applied : List PendingWrite} (p : PendingWrite)
    → Run b applied c
    → Memᴰ p b.held
    → Memᴰ p applied ⊎ Memᴰ p c.held
Run-split p stay m = inr m
Run-split p (take q xs ys e met run) m = elim (mem-middle q xs ys (rw e at m)) [
  | inl same ↦ inl (Memᴰ.head same)
  | inr other ↦ elim (Run-split p run other) [
    | inl later ↦ inl (Memᴰ.tail later)
    | inr held ↦ inr held
  ]
]

pub Run-applied :
    {b c : Buffer} {applied : List PendingWrite} (p : PendingWrite)
    → Run b applied c
    → Memᴰ p applied
    → Memᴰ p b.held
Run-applied p stay m = elim m [ ]
Run-applied p (take q xs ys e met run) (Memᴰ.head same) =
    rw e (mem-append_right xs (Memᴰ.head same))
Run-applied p (take q xs ys e met run) (Memᴰ.tail m) =
    rw e (mem-middle_of q xs ys (Run-applied p run m))

-- The writes in a store, with those that a run has applied to it.
pub with_applied : List Write → List PendingWrite → List Write
with_applied log [] = log
with_applied log (p ∷ ps) = with_applied (write_of p ∷ log) ps

pub Run-IsMergeOf :
    {b c : Buffer} {applied : List PendingWrite} (log : List Write)
    → Run b applied c
    → IsMergeOf b.store log
    → IsMergeOf c.store (with_applied log applied)
unfolding with_applied
Run-IsMergeOf log stay m = m
Run-IsMergeOf {b} log (take p xs ys e met run) m =
    Run-IsMergeOf (write_of p ∷ log) run
      (rw apply_locked-eq-apply (apply-IsMergeOf b.store log p.key (effective p.val) m))

pub mem-with_applied :
    (log : List Write) (ps : List PendingWrite) (w : Write)
    → Memᴰ w (with_applied log ps) ↔ (Memᴰ w (map write_of ps) ⊎ Memᴰ w log)
unfolding with_applied
mem-with_applied log [] w = ((λ m. inr m), (λ m. elim m [ inl x ↦ elim x [ ] | inr x ↦ x ]))
mem-with_applied log (p ∷ ps) w = (
  λ m. elim ((mem-with_applied (write_of p ∷ log) ps w).0 m) [
    | inl later ↦ inl (Memᴰ.tail later)
    | inr (Memᴰ.head this) ↦ inl (Memᴰ.head this)
    | inr (Memᴰ.tail old) ↦ inr old
  ],
  λ m. (mem-with_applied (write_of p ∷ log) ps w).1 (elim m [
    | inl (Memᴰ.head this) ↦ inr (Memᴰ.head this)
    | inl (Memᴰ.tail later) ↦ inl later
    | inr old ↦ inr (Memᴰ.tail old)
  ]),
)
