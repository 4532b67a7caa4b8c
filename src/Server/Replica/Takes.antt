-- ===== src/Server/Replica/Takes.antt =====
-- What a replica outside causal mode makes of a request that its clock accepts.
use distributed_key_value_st.Prelude.{
  String, ◌≡◌, ◌≢◌, refl, sym, Bool, Option, Bool-cases, inl, inr, eq_iff, true, false, some, List,
  arith, eq_refl, ◌==◌,
}
use distributed_key_value_st.Prelude.Int.{ℤ}
use distributed_key_value_st.Prelude.Result.{ok}
use distributed_key_value_st.Hlc
use distributed_key_value_st.Hlc.{Timestamp, Clock}
use distributed_key_value_st.Store
use distributed_key_value_st.Store.{Store, Value, Dependency, is_stale}
use distributed_key_value_st.Store.Merge.{apply_stale, entries-apply-merge, is_stale-Covers, Covers}
use distributed_key_value_st.Buffer.Causal.{effective, timestamp-effective}
use distributed_key_value_st.Replication.{build_replicate_request}
use distributed_key_value_st.Wire.{is_empty}
use distributed_key_value_st.Server.{Node, replicate}
use distributed_key_value_st.Server.Replica.{arrived, replicate_direct}

payload_arrived :
    (val : Value) (deps : List Dependency) → (effective (arrived val deps)).payload ≡ val.payload
unfolding effective is_empty
payload_arrived val deps = ground arith

deleted_arrived :
    (val : Value) (deps : List Dependency)
    → (effective (arrived val deps)).deleted ≡ is_empty val.payload
unfolding effective is_empty
deleted_arrived val deps = ground arith

apply_fresh :
    (s : Store) (key : String) (val : Value)
    → is_stale val.timestamp (s.entries key) ≡ false
    → Store.apply s key val ≡ (Store.assign s key val, true)
unfolding Store.apply
apply_fresh s key val h = rw h refl

ne_of_other : (key k : String) → k ≢ key → (key == k) ≡ false
ne_of_other key k other = elim (Bool-cases (key == k)) [
  | inl same ↦ absurd (other (sym ((eq_iff key k).0 same)))
  | inr differs ↦ differs
]

-- The cell of the key, and the response, after a request that brought `val` to a cell `old`.
pub data Took (old new : Option Value) (val : Value) : Bool → Type 0 where
  refused : Covers old val.timestamp → new ≡ old → Took old new val false
  taken :
      (v : Value)
      → ¬ Covers old val.timestamp
      → new ≡ some v
      → v.payload ≡ val.payload
      → v.timestamp ≡ val.timestamp
      → v.deleted ≡ is_empty val.payload
      → Took old new val true

apply-Took :
    (s : Store) (key : String) (val : Value) (deps : List Dependency)
    → let r = Store.apply s key (effective (arrived val deps)) in
      Took (s.entries key) (r.0.entries key) val r.1
apply-Took s key val deps = elim (Bool-cases (is_stale val.timestamp (s.entries key))) [
  | inl stale ↦
      let held = (is_stale-Covers (s.entries key) val.timestamp).0 stale in
      rw (apply_stale s key (effective (arrived val deps)) (rw timestamp-effective held))
        (Took.refused held refl)
  | inr fresh ↦
      let w = effective (arrived val deps) in
      rw (apply_fresh s key w (rw timestamp-effective fresh)) (
        Took.taken w (not_held fresh) (unfold Store.assign in ground (arith, eq_refl key))
          (payload_arrived val deps) (timestamp-effective (arrived val deps))
          (deleted_arrived val deps))
]
  where
    not_held :
        is_stale val.timestamp (s.entries key) ≡ false → ¬ Covers (s.entries key) val.timestamp
    not_held fresh held = ground (arith, (is_stale-Covers (s.entries key) val.timestamp).1 held)

module _ (m : Node) (direct : (m.mode == "causal") ≡ false) where
  -- Outside causal mode a request that the clock accepts is merged, and the response tells how. If
  -- the key held this version or a later one, it keeps what it held; if not, it takes the bytes and
  -- the timestamp of the write, as a deletion if there are no bytes. Every other key is left alone.
  pub replicate_takes :
      (now : ℤ) (key : String) (val : Value) (deps : List Dependency) {clk : Clock}
      {stamp : Timestamp}
      → Hlc.receive now val.timestamp m.clock ≡ (clk, ok stamp)
      → let (n, resp) = replicate now m (build_replicate_request key val deps) in
        (success : Bool) × (resp ≡ ok (record { success = success }))
        × Took (m.store.entries key) (n.store.entries key) val success
        × ((k : String) → k ≢ key → n.store.entries k ≡ m.store.entries k)
  replicate_takes now key val deps h =
      let w = effective (arrived val deps) in
      rw (replicate_direct m direct now key val deps h) (
        (Store.apply m.store key w).1,
        refl,
        apply-Took m.store key val deps,
        λ k other. rw (entries-apply-merge m.store key k w, ne_of_other key k other) refl,
      )
