-- ===== src/Server/Eventual.antt =====
-- What the methods of a node in eventual mode do: the node and the requests that they leave, on both
-- outcomes of the clock.
use distributed_key_value_st.Prelude.{String, ◌≡◌, refl, false, List, [], map, arith, ◌==◌}
use distributed_key_value_st.Prelude.Int.{ℤ}
use distributed_key_value_st.Prelude.Result.{ok}
use distributed_key_value_st.Hlc
use distributed_key_value_st.Hlc.{Timestamp, Clock}
use distributed_key_value_st.Store
use distributed_key_value_st.Store.{Store, Value, tombstone}
use distributed_key_value_st.Proto.Kv.{PutRequest, DeleteRequest, GetRequest}
use distributed_key_value_st.Proto.Repl.{ReplicateRequest}
use distributed_key_value_st.Replication.{
  Peer, Reply, Options, Send, eventual, on_write, eventual_on_write, build_replicate_request,
  sleep_before_replicate,
}
use distributed_key_value_st.Server.{
  Node, put, delete, get, put_stamped, delete_stamped, put_value, snapshot_reads,
}

-- A send of a write, with no dependencies, to a peer, and those to all peers.
abbrev pub send_to : Options → String → Value → Peer → Send
send_to opts key val p = record {
  peer = p;
  delay = sleep_before_replicate opts key;
  request = build_replicate_request key val [];
}

abbrev pub to_each : List Peer → Options → String → Value → List Send
to_each peers opts key val = map (send_to opts key val) peers

module _ (call : Peer → ReplicateRequest → Reply) (n : Node) (peers : List Peer) (opts : Options)
    (in_mode : n.mode ≡ "eventual") (handled : n.handler ≡ eventual peers opts) where
  not_strong : (n.mode == "strong") ≡ false
  not_strong = rw in_mode refl

  not_causal : (n.mode == "causal") ≡ false
  not_causal = rw in_mode refl

  put_stamped_lem :
      (clk : Clock) (req : PutRequest) (ts : Timestamp)
      → ((put_stamped call (record n { clock = clk }) req (ok ts)).0
          ≡ record n { clock = clk; store = Store.assign n.store req.key (put_value req ts []) })
        × ((put_stamped call (record n { clock = clk }) req (ok ts)).1
            ≡ to_each peers opts req.key (put_value req ts []))
  unfolding put_stamped on_write eventual_on_write Store.put
  put_stamped_lem clk req ts = ground (arith, not_strong, not_causal)

  delete_stamped_lem :
      (clk : Clock) (req : DeleteRequest) (ts : Timestamp)
      → ((delete_stamped call (record n { clock = clk }) req (ok ts)).0
          ≡ record n { clock = clk; store = Store.assign n.store req.key (tombstone ts) })
        × ((delete_stamped call (record n { clock = clk }) req (ok ts)).1
            ≡ to_each peers opts req.key (tombstone ts))
  unfolding delete_stamped on_write eventual_on_write Store.delete
  delete_stamped_lem clk req ts = ground (arith, not_strong, not_causal)

  module _ (now : ℤ) (clk : Clock) where
    -- A put that the clock stamps is stored, and sent to every peer.
    pub put_made :
        (req : PutRequest) (ts : Timestamp)
        → Hlc.send now n.clock ≡ (clk, ok ts)
        → ((put call now n req).0
            ≡ record n { clock = clk; store = Store.assign n.store req.key (put_value req ts []) })
          × ((put call now n req).1 ≡ to_each peers opts req.key (put_value req ts []))
    unfolding put
    put_made req ts h = rw h (put_stamped_lem clk req ts)

    pub delete_made :
        (req : DeleteRequest) (ts : Timestamp)
        → Hlc.send now n.clock ≡ (clk, ok ts)
        → ((delete call now n req).0
            ≡ record n { clock = clk; store = Store.assign n.store req.key (tombstone ts) })
          × ((delete call now n req).1 ≡ to_each peers opts req.key (tombstone ts))
    unfolding delete
    delete_made req ts h = rw h (delete_stamped_lem clk req ts)

  -- A write depends on nothing.
  pub snapshot_reads_none : (snapshot_reads n).0 ≡ []
  unfolding snapshot_reads
  snapshot_reads_none = ground (arith, not_causal)

  -- A read changes nothing.
  pub get_unchanged : (req : GetRequest) → (get n req).0 ≡ n
  unfolding get
  get_unchanged req = ground (arith, not_causal)
