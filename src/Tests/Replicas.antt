-- ===== src/Tests/Replicas.antt =====
-- internal/server: writes that arrive at a replica.
use distributed_key_value_st.Prelude.{
  String, Bool, List, ◌≢◌, ◌==◌, ◌≡◌, refl, false, none, some, [], ◌∷◌,
}
use distributed_key_value_st.Prelude.Int.{pos, ◌+ℤ◌}
use distributed_key_value_st.Prelude.Result.{ok}
use distributed_key_value_st.Hlc
use distributed_key_value_st.Hlc.{Timestamp, Clock, max_logical, compare}
use distributed_key_value_st.Store
use distributed_key_value_st.Store.{Store, Value, Dependency, is_stale}
use distributed_key_value_st.Buffer.Causal.{effective}
use distributed_key_value_st.Proto.Kv.{PutRequest}
use distributed_key_value_st.Proto.Repl.{ReplicateRequest}
use distributed_key_value_st.Replication.{
  Options, eventual, build_replicate_request, on_write, eventual_on_write, causal_on_write,
  strong_on_write, count_acks, is_ack, new_handler,
}
use distributed_key_value_st.Wire.{
  to_proto_ts, from_proto_ts, from_proto_deps, is_empty, replicated_value,
}
use distributed_key_value_st.Server.{
  Node, new_node, put, delete, get, replicate, put_value, write_through, snapshot_reads,
  apply_direct,
}
use distributed_key_value_st.Server.Replica.{get-replicate_empty}
use distributed_key_value_st.Server.Replica.Takes.{Took, replicate_takes}
use distributed_key_value_st.Server.Race.{Call}
use distributed_key_value_st.Server.Race.Calls.{serve}
use distributed_key_value_st.Server.Race.Served.{replicate_again}

program : Unit {0}
unfolding put get delete replicate new_node Hlc.send Hlc.receive compare write_through
    snapshot_reads to_proto_ts from_proto_ts eventual_on_write causal_on_write strong_on_write
    count_acks is_ack on_write Store.put Store.assign Store.get Store.delete Store.apply
    Store.apply_delete replicated_value from_proto_deps is_empty ◌+ℤ◌ build_replicate_request
    effective apply_direct new_handler
program = tt

abbrev no_delay : Options
no_delay = record { delay_prefix = ""; delay = pos 0; peer_delay = pos 0 }

abbrev eventual_node : Node
eventual_node =
    new_node "eventual" Store.new (record { l = pos 10; c = pos 0 }) none
      (eventual ("b" ∷ []) no_delay)

abbrev put_x : PutRequest
put_x = record { key = "x"; value = 1 ∷ [] }

abbrev at_20 : Timestamp
at_20 = record { wall_time = pos 20; logical = pos 0 }

abbrev x_value : Value
x_value = put_value put_x at_20 []

-- The clock and the stamp of a receipt of "x" at time 5.
received :
    Hlc.receive (pos 5) at_20 eventual_node.clock
    ≡ (record { l = pos 20; c = pos 1 }, ok (record { wall_time = pos 20; logical = pos 1 }))
unfolding program
received = refl

not_causal : (eventual_node.mode == "causal") ≡ false
unfolding program
not_causal = refl

missing : eventual_node.store.entries "x" ≡ none
unfolding program
missing = refl

replicate_takes_example :
    let (n, resp) = replicate (pos 5) eventual_node (build_replicate_request "x" x_value []) in
    (success : Bool) × (resp ≡ ok (record { success = success }))
    × Took none (n.store.entries "x") x_value success
    × ((k : String) → k ≢ "x" → n.store.entries k ≡ none)
unfolding new_node
replicate_takes_example = replicate_takes eventual_node not_causal (pos 5) "x" x_value [] received

-- A later write of "x", which comes between the request and its repetition.
abbrev between : List Call
between =
    (
      pos 6,
      build_replicate_request "x"
          (put_value put_x (record { wall_time = pos 30; logical = pos 0 }) []) [],
    )
    ∷ []

abbrev before_repeat : Node
before_repeat =
    serve (replicate (pos 5) eventual_node (build_replicate_request "x" x_value [])).0 between

replicate_again_example :
    (replicate (pos 7) before_repeat (build_replicate_request "x" x_value [])).0.store
    ≡ before_repeat.store
replicate_again_example =
    replicate_again (pos 5) (pos 7) eventual_node "x" x_value [] between not_causal received

-- The request that a put of no bytes sends.
abbrev empty_request : ReplicateRequest
empty_request = record {
  key = "x";
  value = [];
  timestamp = some (record { wall_time = pos 20; logical = pos 0 });
  deps = [];
}

get-replicate_empty_example :
    (get (replicate (pos 5) eventual_node empty_request).0 (record { key = "x" })).1.found ≡ false
get-replicate_empty_example =
    get-replicate_empty eventual_node not_causal (pos 5) empty_request refl missing
