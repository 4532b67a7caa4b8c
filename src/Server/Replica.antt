-- ===== src/Server/Replica.antt =====
-- A write on its way to a replica and its arrival there, outside causal mode.
pub mod Takes
use distributed_key_value_st.Prelude.{
  String, ◌≡◌, ◌≢◌, refl, sym, ap, ◌∙◌, Bool, Option, Bool-cases, inl, inr, eq_iff, true, false,
  none, some, List, [], ◌∷◌, arith, eq_refl, ◌==◌,
}
use distributed_key_value_st.Prelude.Int.{ℤ}
use distributed_key_value_st.Prelude.Result.{Result, ok, err}
use distributed_key_value_st.Hlc
use distributed_key_value_st.Hlc.{Timestamp, Clock}
use distributed_key_value_st.Store
use distributed_key_value_st.Store.{Store, Value, Dependency, is_stale}
use distributed_key_value_st.Store.Merge.{
  not_stale_of, apply_stale, entries-apply-merge, is_stale-Covers, Covers,
}
use distributed_key_value_st.Buffer.Causal.{effective, timestamp-effective}
use distributed_key_value_st.Proto.Repl.{ReplicateRequest, ReplicateResponse}
use distributed_key_value_st.Replication.{build_replicate_request}
use distributed_key_value_st.Wire.{from_proto_deps, replicated_value, is_empty, to_proto_ts}
use distributed_key_value_st.Server.{Node, get, replicate, apply_direct, replicate_received}

-- The dependencies of a request are those that it was built from.
pub from_proto_deps-build :
    (key : String) (val : Value) (deps : List Dependency)
    → from_proto_deps (build_replicate_request key val deps).deps ≡ deps
unfolding from_proto_deps build_replicate_request
from_proto_deps-build key val [] = refl
from_proto_deps-build key val (dep ∷ deps) = ap (◌∷◌ dep) (from_proto_deps-build key val deps)

-- What arrives of a value sent with `deps`: everything but the mark of a deletion, which the replica
-- infers from the absence of bytes.
abbrev pub arrived : Value → List Dependency → Value
arrived val deps = record val { deps = deps; deleted = is_empty val.payload }

pub replicated_value-build :
    (key : String) (val : Value) (deps : List Dependency)
    → replicated_value (build_replicate_request key val deps) val.timestamp ≡ arrived val deps
unfolding replicated_value build_replicate_request
replicated_value-build key val deps =
    ap
      (λ ds. record {
        payload = val.payload;
        timestamp = val.timestamp;
        deps = ds;
        deleted = is_empty val.payload;
      })
      (from_proto_deps-build key val deps)

apply_direct_lem :
    (n : Node) (key : String) (val : Value)
    → apply_direct n key val ≡ (
      record n { store = (Store.apply n.store key (effective val)).0 },
      (Store.apply n.store key (effective val)).1,
    )
unfolding apply_direct effective Store.apply_delete Store.apply
apply_direct_lem n key val = ground arith

abbrev reply : Node × Bool → Node × Result ReplicateResponse
reply (n, success) = (n, ok (record { success = success }))

module _ (m : Node) (direct : (m.mode == "causal") ≡ false) where
  accepted :
      (key : String) (val : Value) (deps : List Dependency) (clk : Clock) (stamp : Timestamp)
      → replicate_received
          (record m { clock = clk })
          (build_replicate_request key val deps)
          val.timestamp
          (ok stamp)
        ≡ (
          record m {
            clock = clk;
            store = (Store.apply m.store key (effective (arrived val deps))).0;
          },
          ok (record { success = (Store.apply m.store key (effective (arrived val deps))).1 }),
        )
  unfolding replicate_received build_replicate_request
  accepted key val deps clk stamp =
      rw (direct, replicated_value-build key val deps)
        (ap (λ (r : Node × Bool). reply r)
          (apply_direct_lem (record m { clock = clk }) key (arrived val deps)))

  -- What a request that the clock accepts leaves, and its response.
  pub replicate_direct :
      (now : ℤ) (key : String) (val : Value) (deps : List Dependency) {clk : Clock}
      {stamp : Timestamp}
      → Hlc.receive now val.timestamp m.clock ≡ (clk, ok stamp)
      → replicate now m (build_replicate_request key val deps) ≡ (
        record m {
          clock = clk;
          store = (Store.apply m.store key (effective (arrived val deps))).0;
        },
        ok (record { success = (Store.apply m.store key (effective (arrived val deps))).1 }),
      )
  unfolding replicate build_replicate_request
  replicate_direct now key val deps {clk} {stamp} h =
      ap
        (λ (r : Clock × Result Timestamp).
          replicate_received (record m { clock = r.0 }) (build_replicate_request key val deps)
            val.timestamp r.1)
        h
      ∙ accepted key val deps clk stamp

  -- Outside causal mode a write with bytes whose request the clock accepts, and which is newer
  -- than what the replica holds under its key, is then read there, bytes and timestamp.
  get-replicate :
      (now : ℤ) (key : String) (val : Value) (deps : List Dependency) {clk : Clock}
      {stamp : Timestamp}
      → Hlc.receive now val.timestamp m.clock ≡ (clk, ok stamp)
      → val.payload ≢ []
      → ¬ Covers (m.store.entries key) val.timestamp
      → (get (replicate now m (build_replicate_request key val deps)).0 (record { key = key })).1
        ≡ record { value = val.payload; timestamp = some (to_proto_ts val.timestamp); found = true }
  unfolding get Store.get Store.apply Store.assign effective is_empty
  get-replicate now key val deps h bytes fresh =
      rw (replicate_direct now key val deps h)
        (ground (arith, eq_refl key, not_stale_of (m.store.entries key) val.timestamp fresh))

  -- Outside causal mode a request with no bytes never shows at a replica that does not have its
  -- key, whether the write was a deletion or the put of an empty value.
  pub get-replicate_empty :
      (now : ℤ) (req : ReplicateRequest)
      → req.value ≡ []
      → m.store.entries req.key ≡ none
      → (get (replicate now m req).0 (record { key = req.key })).1.found ≡ false
  unfolding get replicate Store.get Store.apply_delete Store.apply replicated_value Store.assign
  get-replicate_empty now req empty missing = ground (arith, eq_refl req.key)

module _ (key : String) (val : Value) (deps : List Dependency) where
  stale_step :
      (m : Node) (r : Clock × Result Timestamp)
      → (m.mode == "causal") ≡ false
      → Covers (m.store.entries key) val.timestamp
      → (replicate_received
          (record m { clock = r.0 })
          (build_replicate_request key val deps)
          val.timestamp
          r.1).0.store
        ≡ m.store
  stale_step m (clk, ok stamp) direct h = rw (accepted m direct key val deps clk stamp) (
      ap (λ (r : Store × Bool). r.0)
        (apply_stale m.store key (effective (arrived val deps)) (rw timestamp-effective h)))
  stale_step m (clk, err e) direct h = unfold replicate_received in refl

  -- A request that is not newer than what the replica holds changes nothing in its store.
  pub replicate_stale :
      (now : ℤ) (m : Node)
      → (m.mode == "causal") ≡ false
      → Covers (m.store.entries key) val.timestamp
      → (replicate now m (build_replicate_request key val deps)).0.store ≡ m.store
  unfolding replicate build_replicate_request
  replicate_stale now m direct h = stale_step m (Hlc.receive now val.timestamp m.clock) direct h
