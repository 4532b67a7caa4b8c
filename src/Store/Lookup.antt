-- ===== src/Store/Lookup.antt =====
-- What each store operation leaves under each key.
use distributed_key_value_st.Prelude.{String, ◌≡◌, refl, some, if◌then◌else◌, ◌==◌, arith, eq_iff}
use distributed_key_value_st.Hlc.{Timestamp}
use distributed_key_value_st.Store.{
  Store, Value, tombstone, assign, put, is_stale, apply, delete, apply_delete,
}

-- Stores that agree under every key are equal.
pub Store-ext : (s t : Store) → ((k : String) → s.entries k ≡ t.entries k) → s ≡ t
Store-ext s t h = λ i. record { entries = λ k. h k i }

module _ (s : Store) (key k : String) where
  pub entries-assign :
      (val : Value) → (assign s key val).entries k ≡ (if key == k then some val else s.entries k)
  unfolding assign
  entries-assign val = refl

  pub entries-apply :
      (val : Value)
      → (apply s key val).0.entries k ≡ (
          if key == k
          then (if is_stale val.timestamp (s.entries key) then s.entries key else some val)
          else s.entries k)
  unfolding apply assign
  entries-apply val = ground (arith, eq_iff key k)

-- A replicated deletion is the replicated write of a tombstone.
apply_delete-eq-apply :
    (s : Store) (key : String) (ts : Timestamp) → apply_delete s key ts ≡ apply s key (tombstone ts)
unfolding apply apply_delete
apply_delete-eq-apply s key ts = refl

delete-eq-put :
    (s : Store) (key : String) (ts : Timestamp) → delete s key ts ≡ put s key (tombstone ts)
unfolding put delete
delete-eq-put s key ts = refl
