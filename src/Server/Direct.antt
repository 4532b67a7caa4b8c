-- ===== src/Server/Direct.antt =====
-- What the methods of a node do when the clock refuses, and what a replicated write does outside causal
-- mode.
use distributed_key_value_st.Prelude.{◌≡◌, ap, false, none, some, [], arith, ◌==◌}
use distributed_key_value_st.Prelude.Int.{ℤ}
use distributed_key_value_st.Prelude.Result.{Error, ok, err}
use distributed_key_value_st.Hlc
use distributed_key_value_st.Hlc.{Timestamp, Clock}
use distributed_key_value_st.Hlc.Monotone.{send_unchanged, receive_unchanged}
use distributed_key_value_st.Store
use distributed_key_value_st.Store.{Store, Value, tombstone}
use distributed_key_value_st.Buffer.Causal.{effective}
use distributed_key_value_st.Proto.Kv.{PutRequest, DeleteRequest}
use distributed_key_value_st.Proto.Repl
use distributed_key_value_st.Proto.Repl.{ReplicateRequest, ReplicateResponse}
use distributed_key_value_st.Wire.{from_proto_ts, replicated_value}
use distributed_key_value_st.Replication.{Peer, Reply}
use distributed_key_value_st.Server.{
  Node, put, delete, replicate, put_stamped, delete_stamped, replicate_received,
}

module _ (call : Peer → ReplicateRequest → Reply) (n : Node) where
  -- What the clock does not stamp changes nothing.
  pub put_unmade :
      (now : ℤ) (req : PutRequest) {clk : Clock} (e : Error)
      → Hlc.send now n.clock ≡ (clk, err e)
      → put call now n req ≡ (n, [], err e)
  unfolding put put_stamped
  put_unmade now req e h =
      rw h (ap (λ c. (record n { clock = c }, [], err e)) (send_unchanged now n.clock h))

  pub delete_unmade :
      (now : ℤ) (req : DeleteRequest) {clk : Clock} (e : Error)
      → Hlc.send now n.clock ≡ (clk, err e)
      → delete call now n req ≡ (n, [], err e)
  unfolding delete delete_stamped
  delete_unmade now req e h =
      rw h (ap (λ c. (record n { clock = c }, [], err e)) (send_unchanged now n.clock h))

module _ (n : Node) (not_causal : (n.mode == "causal") ≡ false) where
  module _ (now : ℤ) (req : ReplicateRequest) (pts : Repl.HlcTimestamp) (clk : Clock)
      (stamped : req.timestamp ≡ some pts) where
    -- A request that the clock accepts is applied by the last-write-wins rule.
    pub replicate_taken :
        (stamp : Timestamp)
        → Hlc.receive now (from_proto_ts pts) n.clock ≡ (clk, ok stamp)
        → (replicate now n req).0 ≡ record n {
          clock = clk;
          store =
              (Store.apply n.store req.key
                (effective (replicated_value req (from_proto_ts pts)))).0;
        }
    unfolding replicate replicate_received effective Store.apply_delete Store.apply
    replicate_taken stamp h = ground (arith, not_causal)

    -- One that it refuses changes nothing.
    pub replicate_refused :
        (e : Error)
        → Hlc.receive now (from_proto_ts pts) n.clock ≡ (clk, err e)
        → (replicate now n req).0 ≡ n
    unfolding replicate replicate_received
    replicate_refused e h = ground (arith, receive_unchanged now n.clock (from_proto_ts pts) h)

pub replicate_unstamped :
    (now : ℤ) (n : Node) (req : ReplicateRequest)
    → req.timestamp ≡ none
    → (replicate now n req).0 ≡ n
unfolding replicate
replicate_unstamped now n req e = ground arith
