-- ===== src/Wire.antt =====
-- internal/server/node.go: the conversions between the node's values and the messages.
use distributed_key_value_st.Prelude.{ℕ, Bool, true, false, Option, none, some, List, [], ◌∷◌, ◌++◌}
use distributed_key_value_st.Hlc.{Timestamp}
use distributed_key_value_st.Store.{Value, Dependency}
use distributed_key_value_st.Proto.Kv
use distributed_key_value_st.Proto.Repl
use distributed_key_value_st.Proto.Repl.{ReplicateRequest}

unfoldable pub to_proto_ts : Timestamp → Kv.HlcTimestamp
to_proto_ts ts = record { wall_time = ts.wall_time; logical = ts.logical }

unfoldable pub from_proto_ts : Repl.HlcTimestamp → Timestamp
from_proto_ts ts = record { wall_time = ts.wall_time; logical = ts.logical }

-- A dependency that is nil or has no timestamp is skipped.
from_proto_dep : Option Repl.Dependency → List Dependency
from_proto_dep none = []
from_proto_dep (some dep) = elim (dep.min_ts) [
  | none ↦ []
  | some ts ↦ record { key = dep.key; min_ts = from_proto_ts ts } ∷ []
]

unfoldable pub from_proto_deps : List (Option Repl.Dependency) → List Dependency
unfolding from_proto_dep from_proto_ts
from_proto_deps [] = []
from_proto_deps (dep ∷ deps) = from_proto_dep dep ++ from_proto_deps deps

unfoldable pub is_empty : List ℕ → Bool
is_empty [] = true
is_empty (b ∷ bs) = false

-- The value that `Replicate` makes of a request with the timestamp `ts`.
unfoldable pub replicated_value : ReplicateRequest → Timestamp → Value
unfolding is_empty from_proto_deps
replicated_value req ts = record {
  payload = req.value;
  timestamp = ts;
  deps = from_proto_deps req.deps;
  deleted = is_empty req.value;
}
