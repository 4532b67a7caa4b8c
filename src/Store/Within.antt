-- ===== src/Store/Within.antt =====
-- Stores in which no value is stamped later than a bound: a write at the bound or later covers all
-- that was there.
use distributed_key_value_st.Prelude.{
  String, ◌≡◌, ◌⊎◌, inl, inr, refl, ap, Option, none, some, arith, Bool-cases, eq_iff, eq_refl,
  ◌==◌,
}
use distributed_key_value_st.Hlc.{Timestamp}
use distributed_key_value_st.Hlc.Order.{NotLater, NotLater-refl, NotLater-trans}
use distributed_key_value_st.Store
use distributed_key_value_st.Store.{Store, Value}
use distributed_key_value_st.Store.Lookup.{entries-assign}
use distributed_key_value_st.Store.Merge.{Covers}
use distributed_key_value_st.Store.Converge.{Write, apply_from}

-- No value of the store is stamped later than `ts`.
abbrev pub IsWithin : Timestamp → Store → Type 0
IsWithin ts s = (k : String) (v : Value) → s.entries k ≡ some v → NotLater v.timestamp ts

module _ (s : Store) (key : String) (val : Value) (within : IsWithin val.timestamp s) where
  pub assigned_from :
      (k : String) (v : Value)
      → (Store.assign s key val).entries k ≡ some v
      → (s.entries k ≡ some v) ⊎ (◌≡◌ {A = Write} (k, v) (key, val))
  assigned_from k v h = elim (Bool-cases (key == k)) [
    | inl same ↦ inr (ground (arith, eq_iff key k, entries-assign s key k val))
    | inr other ↦ inl (ground (arith, entries-assign s key k val))
  ]

  Covers-within :
      (cell : Option Value) (ts : Timestamp)
      → ((v : Value) → cell ≡ some v → NotLater v.timestamp val.timestamp)
      → Covers cell ts
      → NotLater ts val.timestamp
  Covers-within none ts h c = absurd c
  Covers-within (some v) ts h c = NotLater-trans ts v.timestamp val.timestamp c (h v refl)

  pub Covers-assign :
      (k : String) (ts : Timestamp)
      → Covers (s.entries k) ts
      → Covers ((Store.assign s key val).entries k) ts
  Covers-assign k ts c = rw (entries-assign s key k val) (elim (Bool-cases (key == k)) [
    | inl same ↦ rw same (Covers-within (s.entries k) ts (within k) c)
    | inr other ↦ rw other c
  ])

  pub Covers-assign_self : Covers ((Store.assign s key val).entries key) val.timestamp
  Covers-assign_self = rw (entries-assign s key key val, eq_refl) (NotLater-refl val.timestamp)

  pub assign-IsWithin : IsWithin val.timestamp (Store.assign s key val)
  assign-IsWithin k v h = elim (assigned_from k v h) [
    | inl old ↦ within k v old
    | inr this ↦ rw (ap (λ (w : Write). w.1.timestamp) this) (NotLater-refl val.timestamp)
  ]

pub IsWithin-later : (a b : Timestamp) (s : Store) → NotLater a b → IsWithin a s → IsWithin b s
IsWithin-later a b s h w k v e = NotLater-trans v.timestamp a b (w k v e) h

pub apply-IsWithin :
    (ts : Timestamp) (s : Store) (key : String) (val : Value)
    → IsWithin ts s
    → NotLater val.timestamp ts
    → IsWithin ts (Store.apply s key val).0
apply-IsWithin ts s key val w h k v e = elim (apply_from s key k val v e) [
  | inl old ↦ w k v old
  | inr this ↦ rw (ap (λ (w : Write). w.1.timestamp) this) h
]
