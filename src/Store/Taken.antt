-- ===== src/Store/Taken.antt =====
-- A store that is the merge of some writes takes another one.
use distributed_key_value_st.Prelude.{String, inl, inr, List, ◌∷◌, Memᴰ}
use distributed_key_value_st.Store
use distributed_key_value_st.Store.{Store, Value}
use distributed_key_value_st.Store.Within.{
  IsWithin, assigned_from, Covers-assign, Covers-assign_self,
}
use distributed_key_value_st.Store.Merge.{Covers-apply_self}
use distributed_key_value_st.Store.Converge.{Write, IsMergeOf, Covers-apply, apply_from}

module _ (s : Store) (log : List Write) (key : String) (val : Value) (m : IsMergeOf s log) where
  -- A write by the last-write-wins rule joins the merge.
  pub apply-IsMergeOf : IsMergeOf (Store.apply s key val).0 ((key, val) ∷ log)
  apply-IsMergeOf = record {
    written = λ k v h. elim (apply_from s key k val v h) [
      | inl old ↦ Memᴰ.tail (m.written k v old)
      | inr this ↦ Memᴰ.head this
    ];
    covered = λ w h. elim h [
      | Memᴰ.head e ↦ rw e (Covers-apply_self s key val)
      | Memᴰ.tail t ↦ Covers-apply s key w.0 val w.1.timestamp (m.covered w t)
    ];
  }

  module _ (within : IsWithin val.timestamp s) where
    -- ... and so does an unconditional write that is not stamped before anything in the store.
    pub assign-IsMergeOf : IsMergeOf (Store.assign s key val) ((key, val) ∷ log)
    assign-IsMergeOf = record {
      written = λ k v h. elim (assigned_from s key val within k v h) [
        | inl old ↦ Memᴰ.tail (m.written k v old)
        | inr this ↦ Memᴰ.head this
      ];
      covered = λ w h. elim h [
        | Memᴰ.head e ↦ rw e (Covers-assign_self s key val within)
        | Memᴰ.tail t ↦ Covers-assign s key val within w.0 w.1.timestamp (m.covered w t)
      ];
    }
