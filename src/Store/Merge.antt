-- ===== src/Store/Merge.antt =====
-- One replicated write under its key: last write wins by the timestamp.
use distributed_key_value_st.Prelude.{
  String, ◌≡◌, ◌⊎◌, inl, inr, true, Option, none, some, ◌==◌, arith, ◌↔◌, Bool-cases, if◌then◌else◌,
  eq_iff, eq_refl, false,
}
use distributed_key_value_st.Hlc.{Timestamp}
use distributed_key_value_st.Hlc.Order.{
  NotLater, NotLater-refl, NotLater-trans, NotLater_of_Earlier, stale_iff, not_stale_iff,
}
use distributed_key_value_st.Store.{Store, Value, is_stale, apply}
use distributed_key_value_st.Store.Lookup.{entries-apply}

-- A cell of the map holds a version at `ts` or a later one.
abbrev pub Covers : Option Value → Timestamp → Type 0
Covers none ts = ⊥
Covers (some cur) ts = NotLater ts cur.timestamp

-- What `Apply` leaves in the cell of its key.
unfoldable pub merge : Option Value → Value → Option Value
merge cell val = if is_stale val.timestamp cell then cell else some val

pub is_stale-Covers :
    (cell : Option Value) (ts : Timestamp) → (is_stale ts cell ≡ true) ↔ Covers cell ts
unfolding is_stale
is_stale-Covers none ts = ground arith
is_stale-Covers (some cur) ts = stale_iff ts cur.timestamp

pub Covers-merge_self : (cell : Option Value) (val : Value) → Covers (merge cell val) val.timestamp
unfolding merge
Covers-merge_self cell val = elim (Bool-cases (is_stale val.timestamp cell)) [
  | inl stale ↦ rw stale ((is_stale-Covers cell val.timestamp).0 stale)
  | inr fresh ↦ rw fresh (NotLater-refl val.timestamp)
]

-- Versions only grow.
pub Covers-merge :
    (cell : Option Value) (val : Value) (ts : Timestamp)
    → Covers cell ts
    → Covers (merge cell val) ts
unfolding merge is_stale
Covers-merge (some cur) val ts h = ground (
  arith,
  not_stale_iff val.timestamp cur.timestamp,
  NotLater-trans ts cur.timestamp val.timestamp,
  NotLater_of_Earlier cur.timestamp val.timestamp,
)
Covers-merge none val ts h = absurd h

-- Nothing is invented: the cell keeps what it held or takes the write.
pub merge_from :
    (cell : Option Value) (val : Value) → (merge cell val ≡ cell) ⊎ (merge cell val ≡ some val)
unfolding merge
merge_from cell val = ground arith

pub entries-apply-merge :
    (s : Store) (key k : String) (val : Value)
    → (apply s key val).0.entries k ≡ (if key == k then merge (s.entries k) val else s.entries k)
unfolding merge
entries-apply-merge s key k val = elim (Bool-cases (key == k)) [
  | inl e ↦ rw (entries-apply s key k val, e, (eq_iff key k).0 e)
  | inr e ↦ rw (entries-apply s key k val, e)
]

pub not_stale_of :
    (cell : Option Value) (ts : Timestamp) → ¬ Covers cell ts → is_stale ts cell ≡ false
not_stale_of cell ts fresh = elim (Bool-cases (is_stale ts cell)) [
  | inl stale ↦ absurd (fresh ((is_stale-Covers cell ts).0 stale))
  | inr fine ↦ fine
]

-- A write that does not come later than what its key holds is refused and changes nothing.
pub apply_stale :
    (s : Store) (key : String) (val : Value)
    → Covers (s.entries key) val.timestamp
    → apply s key val ≡ (s, false)
unfolding apply
apply_stale s key val h =
    let stale : is_stale val.timestamp (s.entries key) ≡ true =
      (is_stale-Covers (s.entries key) val.timestamp).1 h in
    rw stale

pub Covers-apply_self :
    (s : Store) (key : String) (val : Value)
    → Covers ((apply s key val).0.entries key) val.timestamp
Covers-apply_self s key val =
    rw (entries-apply-merge, eq_refl) (Covers-merge_self (s.entries key) val)
