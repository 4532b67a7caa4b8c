-- ===== src/Buffer/Causal.antt =====
-- Causal safety: whatever a replica shows, it also holds what the shown write depends on.
use distributed_key_value_st.Prelude.{
  String, ◌≡◌, ◌⊎◌, inl, inr, refl, true, Option, none, some, ◌==◌, if◌then◌else◌, List, [], ◌∷◌,
  arith, All, All-middle, All-snoc, Bool-cases,
}
use distributed_key_value_st.Hlc.{Timestamp, zero_ts}
use distributed_key_value_st.Hlc.Order.{
  NotLater, NotLater-refl, NotLater-trans, NotLater_of_Earlier, not_stale_iff, after_or_equal_iff,
}
use distributed_key_value_st.Store
use distributed_key_value_st.Store.{Store, Value, Dependency, tombstone, is_stale}
use distributed_key_value_st.Store.Merge.{Covers, merge, merge_from, entries-apply-merge}
use distributed_key_value_st.Buffer.{
  Buffer, PendingWrite, version, deps_satisfied, apply_locked, receive, new,
}
use distributed_key_value_st.Buffer.Run.{Run, stay, take}
use distributed_key_value_st.Buffer.Drain.{drain_locked_lem}

-- The value that the store keeps of a write: of a deletion, a tombstone with no dependencies.
unfoldable pub effective : Value → Value
effective val = if val.deleted then tombstone val.timestamp else val

pub apply_locked-eq-apply :
    (s : Store) (key : String) (val : Value)
    → apply_locked s key val ≡ (Store.apply s key (effective val)).0
unfolding apply_locked effective Store.apply Store.apply_delete
apply_locked-eq-apply s key val = ground arith

pub timestamp-effective : (val : Value) → (effective val).timestamp ≡ val.timestamp
unfolding effective
timestamp-effective val = ground arith

abbrev pub cell_version : Option Value → Timestamp
cell_version none = zero_ts
cell_version (some v) = v.timestamp

pub version_lem : (s : Store) (k : String) → version s k ≡ cell_version (s.entries k)
unfolding version Store.get_version
version_lem s k = ground arith

-- Wall times and counters at or after the zero timestamp, as clocks hand them out.
abbrev pub IsStamped : Value → Type 0
IsStamped v = NotLater zero_ts v.timestamp

abbrev pub CellIsStamped : Option Value → Type 0
CellIsStamped none = Unit {0}
CellIsStamped (some v) = IsStamped v

cell_version-merge :
    (cell : Option Value) (v : Value)
    → CellIsStamped cell
    → IsStamped v
    → NotLater (cell_version cell) (cell_version (merge cell v)) × CellIsStamped (merge cell v)
unfolding merge is_stale
cell_version-merge none v h k = (k, k)
cell_version-merge (some u) v h k = ground (
  arith,
  not_stale_iff v.timestamp u.timestamp,
  NotLater-refl u.timestamp,
  NotLater_of_Earlier u.timestamp v.timestamp,
)

unfoldable pub Grows : Store → Store → Type 0
Grows s t = (k : String) → NotLater (version s k) (version t k)

pub deps_satisfied-Grows :
    (s t : Store) (deps : List Dependency)
    → Grows s t
    → deps_satisfied s deps ≡ true
    → deps_satisfied t deps ≡ true
unfolding deps_satisfied Grows
deps_satisfied-Grows s t [] g h = refl
deps_satisfied-Grows s t (dep ∷ deps) g h = ground (
  arith,
  deps_satisfied-Grows s t deps g,
  after_or_equal_iff (version s dep.key) dep.min_ts,
  after_or_equal_iff (version t dep.key) dep.min_ts,
  NotLater-trans dep.min_ts (version s dep.key) (version t dep.key),
  g dep.key,
)

-- Every value in the store has its dependencies met by the store, and is stamped.
pub record IsCausal (s : Store) : Type 0 where
  pub closed : (k : String) (v : Value) → s.entries k ≡ some v → deps_satisfied s v.deps ≡ true
  pub stamped : (k : String) → CellIsStamped (s.entries k)

pub zero-NotLater-version : (s : Store) (k : String) → IsCausal s → NotLater zero_ts (version s k)
zero-NotLater-version s k c = rw version_lem (cell (s.entries k) (c.stamped k))
  where
    cell : (o : Option Value) → CellIsStamped o → NotLater zero_ts (cell_version o)
    cell none h = NotLater-refl zero_ts
    cell (some v) h = h

pub Covers-version :
    (s : Store) (k : String) (ts : Timestamp) → Covers (s.entries k) ts → NotLater ts (version s k)
Covers-version s k ts h = rw version_lem (cell (s.entries k) h)
  where
    cell : (o : Option Value) → Covers o ts → NotLater ts (cell_version o)
    cell none h = absurd h
    cell (some v) h = h

module _ (s : Store) (key : String) (val : Value) (c : IsCausal s) (h : IsStamped val) where
  abbrev applied : Store
  applied = apply_locked s key val

  entries-applied :
      (k : String)
      → applied.entries k ≡ (if key == k then merge (s.entries k) (effective val) else s.entries k)
  entries-applied k = rw apply_locked-eq-apply (entries-apply-merge s key k (effective val))

  merged :
      (k : String)
      → NotLater (cell_version (s.entries k)) (cell_version (merge (s.entries k) (effective val)))
        × CellIsStamped (merge (s.entries k) (effective val))
  merged k =
      cell_version-merge (s.entries k) (effective val) (c.stamped k) (rw timestamp-effective h)

  apply_locked-Grows : Grows s applied
  unfolding Grows
  apply_locked-Grows k =
      rw (version_lem s k, version_lem applied k, entries-applied k)
        (elim (Bool-cases (key == k)) [
          | inl same ↦ rw same (merged k).0
          | inr other ↦ rw other (NotLater-refl (cell_version (s.entries k)))
        ])

  applied_from :
      (k : String) (v : Value)
      → applied.entries k ≡ some v
      → (s.entries k ≡ some v) ⊎ (v ≡ effective val)
  applied_from k v e = elim (Bool-cases (key == k)) [
    | inr other ↦ inl (ground (arith, entries-applied k))
    | inl same ↦ elim (merge_from (s.entries k) (effective val)) [
      | inl kept ↦ inl (ground (arith, entries-applied k))
      | inr taken ↦ inr (ground (arith, entries-applied k))
    ]
  ]

  applied_stamped : (k : String) → CellIsStamped (applied.entries k)
  applied_stamped k = rw (entries-applied) (elim (Bool-cases (key == k)) [
    | inl same ↦ rw same (merged k).1
    | inr other ↦ rw other (c.stamped k)
  ])

  effective_met : deps_satisfied s val.deps ≡ true → deps_satisfied s (effective val).deps ≡ true
  unfolding effective deps_satisfied
  effective_met met = ground arith

  apply_locked-IsCausal : deps_satisfied s val.deps ≡ true → IsCausal applied
  apply_locked-IsCausal met = record {
    closed = λ k v e. elim (applied_from k v e) [
      | inl old ↦ deps_satisfied-Grows s applied v.deps apply_locked-Grows (c.closed k v old)
      | inr this ↦ rw this (
          deps_satisfied-Grows s applied (effective val).deps apply_locked-Grows
            (effective_met met))
    ];
    stamped = applied_stamped;
  }

abbrev pub HoldsStamped : PendingWrite → Type 0
HoldsStamped p = IsStamped p.val

-- A buffer whose store is causal and whose held writes are stamped.
pub record IsValid (b : Buffer) : Type 0 where
  pub causal : IsCausal b.store
  pub held_stamped : All HoldsStamped b.held

pub Run-IsValid :
    {b c : Buffer} {applied : List PendingWrite} → Run b applied c → IsValid b → IsValid c
Run-IsValid stay v = v
Run-IsValid {b} (take p xs ys e met run) v =
    let parts = All-middle HoldsStamped xs ys p (rw e at v.held_stamped) in
    Run-IsValid run (record {
      causal = apply_locked-IsCausal b.store p.key p.val v.causal parts.0 met;
      held_stamped = parts.1;
    })

pub new-IsValid : IsValid (new Store.new)
new-IsValid = record {
  causal = record { closed = λ k v e. cc; stamped = λ k. tt };
  held_stamped = tt;
}

-- The causal invariant survives the receipt of a write that is not stamped before the zero
-- timestamp: each value in the store has its dependencies met by the store, whether the write was
-- applied at once, held, or let others drain.
pub receive-IsValid :
    (b : Buffer) (key : String) (val : Value)
    → IsValid b
    → IsStamped val
    → IsValid (receive b key val).0
unfolding receive
receive-IsValid b key val v h = elim (Bool-cases (deps_satisfied b.store val.deps)) [
  | inl met ↦ rw met (
      Run-IsValid (drain_locked_lem (record b { store = apply_locked b.store key val })).0.1
        (record {
          causal = apply_locked-IsCausal b.store key val v.causal h met;
          held_stamped = v.held_stamped;
        }))
  | inr unmet ↦ rw unmet (record {
    causal = v.causal;
    held_stamped = All-snoc HoldsStamped b.held (record { key = key; val = val }) v.held_stamped h;
  })
]
