-- ===== src/Tests/Nodes.antt =====
-- internal/server: runs of nodes by clients.
use distributed_key_value_st.Prelude.{
  String, ◌≡◌, ◌≢◌, refl, true, false, none, some, [], ◌∷◌, eq_iff,
}
use distributed_key_value_st.Prelude.Int.{pos, ◌+ℤ◌}
use distributed_key_value_st.Prelude.Result.{ok, err, quorum_not_reached}
use distributed_key_value_st.Hlc
use distributed_key_value_st.Hlc.{Timestamp, Clock, max_logical, compare}
use distributed_key_value_st.Store
use distributed_key_value_st.Store.{Store, Value, Dependency, is_stale}
use distributed_key_value_st.Buffer.Causal.{effective}
use distributed_key_value_st.Proto.Kv.{PutRequest, DeleteRequest}
use distributed_key_value_st.Proto.Repl.{ReplicateRequest}
use distributed_key_value_st.Replication.{
  Peer, Reply, Options, failed, eventual, causal, strong, build_replicate_request, on_write,
  eventual_on_write, causal_on_write, strong_on_write, count_acks, is_ack, new_handler,
}
use distributed_key_value_st.Wire.{
  to_proto_ts, from_proto_ts, from_proto_deps, is_empty, replicated_value,
}
use distributed_key_value_st.Server.{
  Node, new_node, put, delete, get, replicate, write_through, snapshot_reads, apply_direct,
}
use distributed_key_value_st.Server.Clients.{IsWired, get-put_self, put_err-store}
use distributed_key_value_st.Server.Steps.{Reach}
use distributed_key_value_st.Server.Steps

unfoldable pub program : Unit {0}
unfolding put get delete replicate new_node Hlc.send Hlc.receive compare write_through
    snapshot_reads to_proto_ts from_proto_ts eventual_on_write causal_on_write strong_on_write
    count_acks is_ack on_write Store.put Store.assign Store.get Store.delete Store.apply
    Store.apply_delete replicated_value from_proto_deps is_empty ◌+ℤ◌ build_replicate_request
    effective apply_direct new_handler
program = tt

abbrev pub no_delay : Options
no_delay = record { delay_prefix = ""; delay = pos 0; peer_delay = pos 0 }

abbrev pub unreachable : Peer → ReplicateRequest → Reply
unreachable p req = failed

abbrev eventual_node : Node
eventual_node =
    new_node "eventual" Store.new (record { l = pos 10; c = pos 0 }) none
      (eventual ("b" ∷ []) no_delay)

abbrev strong_node : Node
strong_node =
    new_node "strong" Store.new (record { l = pos 10; c = pos 0 }) none
      (strong ("b" ∷ "c" ∷ []) 2 no_delay)

abbrev pub put_x : PutRequest
put_x = record { key = "x"; value = 1 ∷ [] }

abbrev delete_x : DeleteRequest
delete_x = record { key = "x" }

abbrev after_put : Node
after_put = (put unreachable (pos 20) eventual_node put_x).0

abbrev pub at_20 : Timestamp
at_20 = record { wall_time = pos 20; logical = pos 0 }

put_eventual : put unreachable (pos 20) eventual_node put_x ≡ (
  after_put,
  (put unreachable (pos 20) eventual_node put_x).1,
  ok (record { timestamp = some (to_proto_ts at_20) }),
)
unfolding program
put_eventual = refl

get-put_self_example :
    (get after_put (record { key = "x" })).1
    ≡ record { value = 1 ∷ []; timestamp = some (to_proto_ts at_20); found = true }
get-put_self_example = get-put_self unreachable (pos 20) eventual_node put_x put_eventual

abbrev after_delete : Node
after_delete = (delete unreachable (pos 20) eventual_node delete_x).0

delete_eventual : delete unreachable (pos 20) eventual_node delete_x ≡ (
  after_delete,
  (delete unreachable (pos 20) eventual_node delete_x).1,
  ok (record { timestamp = some (to_proto_ts at_20) }),
)
unfolding program
delete_eventual = refl

keys_differ : ◌≢◌ {A = String} "x" "y"
keys_differ e = cc ((eq_iff "x" "y").1 e)

strong_node-IsWired : IsWired strong_node
unfolding program
strong_node-IsWired = ("b" ∷ "c" ∷ [], no_delay, refl)

-- With both peers unreachable a strong put fails.
put_strong : put unreachable (pos 20) strong_node put_x ≡ (
  (put unreachable (pos 20) strong_node put_x).0,
  (put unreachable (pos 20) strong_node put_x).1,
  err quorum_not_reached,
)
unfolding program
put_strong = refl

put_err-store_example : (put unreachable (pos 20) strong_node put_x).0.store ≡ strong_node.store
put_err-store_example =
    put_err-store unreachable (pos 20) strong_node put_x strong_node-IsWired put_strong

abbrev pub causal_start : Node
causal_start = new_node "causal" Store.new (Hlc.new (pos 10)) (some []) (causal ("b" ∷ []) no_delay)

abbrev pub causal_next : Node
causal_next = (put unreachable (pos 20) causal_start put_x).0

abbrev pub causal_read : Node
causal_read = (get causal_next (record { key = "x" })).0

abbrev pub causal_end : Node
causal_end = (put unreachable (pos 30) causal_read (record { key = "y"; value = 2 ∷ [] })).0

pub causal_run : Reach causal_start causal_end
causal_run =
    Steps.next
      (Steps.next (Steps.next Steps.here (Steps.putting unreachable (pos 20) put_x))
        (Steps.getting (record { key = "x" })))
      (Steps.putting unreachable (pos 30) (record { key = "y"; value = 2 ∷ [] }))

-- "y", put after a read of "x".
abbrev pub y_value : Value
y_value = record {
  payload = 2 ∷ [];
  timestamp = record { wall_time = pos 30; logical = pos 0 };
  deps = record { key = "x"; min_ts = at_20 } ∷ [];
  deleted = false;
}

pub causal_end-y : causal_end.store.entries "y" ≡ some y_value
unfolding program Hlc.new
causal_end-y = refl
