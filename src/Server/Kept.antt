-- ===== src/Server/Kept.antt =====
-- A node outside causal mode in use, one call at a time: what its calls do to a version that it holds.
use distributed_key_value_st.Prelude.{
  Option, String, ◌⊎◌, inl, inr, ◌≡◌, refl, false, none, some, arith, ◌==◌, ap,
}
use distributed_key_value_st.Prelude.Int.{ℤ}
use distributed_key_value_st.Prelude.Result.{Result, ok, err}
use distributed_key_value_st.Hlc
use distributed_key_value_st.Hlc.{Timestamp, Clock, reading}
use distributed_key_value_st.Hlc.Order.{NotLater_of_Earlier, NotLater-refl}
use distributed_key_value_st.Hlc.Monotone.{
  send-later, receive-later, receive-reading, receive-later_message_iff,
}
use distributed_key_value_st.Store
use distributed_key_value_st.Store.{Store, Value, tombstone}
use distributed_key_value_st.Store.Merge.{Covers}
use distributed_key_value_st.Proto.Kv.{PutRequest, DeleteRequest, GetRequest}
use distributed_key_value_st.Proto.Repl.{ReplicateRequest}
use distributed_key_value_st.Replication.{Peer, Reply, Handler}
use distributed_key_value_st.Server.{
  Node, delete_stamped, put_value, snapshot_reads, new_node, put, delete, get, replicate,
  put_stamped,
}
use distributed_key_value_st.Server.Direct.{
  put_unmade, delete_unmade, replicate_taken, replicate_refused, replicate_unstamped,
}
use distributed_key_value_st.Server.Steps.{
  Step, Reach, putting, deleting, getting, replicating, here, next,
}
use distributed_key_value_st.Buffer.Causal.{effective, timestamp-effective}
use distributed_key_value_st.Proto.Repl
use distributed_key_value_st.Wire.{from_proto_ts, replicated_value}
use distributed_key_value_st.Server.Receipts.{IsTimely}
use distributed_key_value_st.Server.Follows.{
  IsDirectNode, new_node-IsDirectNode, Follows, Follows-IsDirectNode, Follows-Covers,
}

module _ (call : Peer → ReplicateRequest → Reply) (n : Node) where
  put_stamped_outcome :
      (req : PutRequest) (ts : Timestamp)
      → let m = (put_stamped call n req (ok ts)).0 in
        (m.mode ≡ n.mode)
        × (m.clock ≡ n.clock)
        × ((m.store ≡ n.store)
            ⊎ (m.store ≡ Store.assign n.store req.key (put_value req ts (snapshot_reads n).0)))
  unfolding put_stamped Store.put
  put_stamped_outcome req ts = ground arith

  delete_stamped_outcome :
      (req : DeleteRequest) (ts : Timestamp)
      → let m = (delete_stamped call n req (ok ts)).0 in
        (m.mode ≡ n.mode)
        × (m.clock ≡ n.clock)
        × ((m.store ≡ n.store) ⊎ (m.store ≡ Store.assign n.store req.key (tombstone ts)))
  unfolding delete_stamped Store.delete
  delete_stamped_outcome req ts = ground arith

pub get_parts :
    (n : Node) (req : GetRequest)
    → let m = (get n req).0 in (m.mode ≡ n.mode) × (m.store ≡ n.store) × (m.clock ≡ n.clock)
unfolding get
get_parts n req = ground arith

stamp-replicated :
    (req : ReplicateRequest) (ts : Timestamp) → (effective (replicated_value req ts)).timestamp ≡ ts
unfolding replicated_value
stamp-replicated req ts = timestamp-effective (replicated_value req ts)

module _ (n : Node) where
  -- A node whose clock stamped a write, stored it or did not.
  stamped-Follows :
      (now : ℤ) (clk : Clock) (ts : Timestamp) (m : Node) (key : String) (val : Value)
      → Hlc.send now n.clock ≡ (clk, ok ts)
      → val.timestamp ≡ ts
      → (m.mode ≡ n.mode)
        × (m.clock ≡ clk)
        × ((m.store ≡ n.store) ⊎ (m.store ≡ Store.assign n.store key val))
      → Follows n m
  stamped-Follows now clk ts m key val h stamp (mode, same, store) =
      let sent = send-later now n.clock h in
      let low = NotLater_of_Earlier (reading n.clock) ts sent.0 in
      elim store [
        | inl same_store ↦ Follows.kept mode same_store (rw (same, sent.1) low)
        | inr new ↦
            Follows.assigned key val mode new (rw stamp low)
              (rw (same, sent.1, stamp) (NotLater-refl ts))
      ]

  unstamped-Follows : (m : Node) → m ≡ n → Follows n m
  unstamped-Follows m same =
      Follows.kept (ap (λ (k : Node). k.mode) same) (ap (λ (k : Node). k.store) same)
        (rw same (NotLater-refl (reading n.clock)))

  put-Follows :
      (call : Peer → ReplicateRequest → Reply) (now : ℤ) (req : PutRequest)
      (r : Clock × Result Timestamp)
      → Hlc.send now n.clock ≡ r
      → Follows n (put call now n req).0
  unfolding put
  put-Follows call now req (clk, ok ts) h = rw h (
      stamped-Follows now clk ts _ req.key
        (put_value req ts (snapshot_reads (record n { clock = clk })).0) h refl
        (put_stamped_outcome call (record n { clock = clk }) req ts))
  put-Follows call now req (clk, err e) h =
      unstamped-Follows _ (ap (λ r. r.0) (put_unmade call n now req e h))

  delete-Follows :
      (call : Peer → ReplicateRequest → Reply) (now : ℤ) (req : DeleteRequest)
      (r : Clock × Result Timestamp)
      → Hlc.send now n.clock ≡ r
      → Follows n (delete call now n req).0
  unfolding delete
  delete-Follows call now req (clk, ok ts) h = rw h (
      stamped-Follows now clk ts _ req.key (tombstone ts) h refl
        (delete_stamped_outcome call (record n { clock = clk }) req ts))
  delete-Follows call now req (clk, err e) h =
      unstamped-Follows _ (ap (λ r. r.0) (delete_unmade call n now req e h))

  get-Follows : (req : GetRequest) → Follows n (get n req).0
  get-Follows req =
      let same = get_parts n req in
      Follows.kept same.0 same.1 (rw (same.2) (NotLater-refl (reading n.clock)))

  module _ (direct : (n.mode == "causal") ≡ false) (req : ReplicateRequest) (now : ℤ) where
    received-Follows :
        (pts : Repl.HlcTimestamp) (r : Clock × Result Timestamp)
        → req.timestamp ≡ some pts
        → Hlc.receive now (from_proto_ts pts) n.clock ≡ r
        → IsTimely now n (some pts)
        → Follows n (replicate now n req).0
    received-Follows pts (clk, ok stamp) e h timely =
        let read = receive-reading now n.clock (from_proto_ts pts) h in
        rw (replicate_taken n direct now req pts clk e stamp h) (
          Follows.applied req.key (effective (replicated_value req (from_proto_ts pts))) refl refl
            (rw read (
              NotLater_of_Earlier (reading n.clock) stamp
                (receive-later now n.clock (from_proto_ts pts) h).0))
            (rw (read, stamp-replicated req (from_proto_ts pts))
              (NotLater_of_Earlier (from_proto_ts pts) stamp
                ((receive-later_message_iff now n.clock (from_proto_ts pts) h).1 timely.1))))
    received-Follows pts (clk, err x) e h timely =
        unstamped-Follows _ (replicate_refused n direct now req pts clk e x h)

    replicate-Follows :
        (t : Option Repl.HlcTimestamp)
        → req.timestamp ≡ t
        → IsTimely now n t
        → Follows n (replicate now n req).0
    replicate-Follows none e timely = unstamped-Follows _ (replicate_unstamped now n req e)
    replicate-Follows (some pts) e timely =
        received-Follows pts (Hlc.receive now (from_proto_ts pts) n.clock) e refl timely

Step-Follows : {n m : Node} → IsDirectNode n → Step n m → Follows n m
Step-Follows {n} v (putting call now req) = put-Follows n call now req (Hlc.send now n.clock) refl
Step-Follows {n} v (deleting call now req) =
    delete-Follows n call now req (Hlc.send now n.clock) refl
Step-Follows {n} v (getting req) = get-Follows n req
Step-Follows {n} v (replicating now req timely) =
    replicate-Follows n v.direct req now req.timestamp refl timely

Reach-IsDirectNode : {n m : Node} → IsDirectNode n → Reach n m → IsDirectNode m
Reach-IsDirectNode v here = v
Reach-IsDirectNode v (next r s) =
    let w = Reach-IsDirectNode v r in Follows-IsDirectNode (Step-Follows w s) w

Reach-Covers :
    {n m : Node} (k : String) (ts : Timestamp)
    → IsDirectNode n
    → Reach n m
    → Covers (n.store.entries k) ts
    → Covers (m.store.entries k) ts
Reach-Covers k ts v here c = c
Reach-Covers k ts v (next r s) c =
    let w = Reach-IsDirectNode v r in
    Follows-Covers k ts (Step-Follows w s) w (Reach-Covers k ts v r c)

-- A new node outside causal mode whose calls come one at a time, each after the one before has
-- returned: whatever version of a key the node holds at some
-- point, it holds that version or a later one ever after, through puts, failed puts, deletions, reads
-- and replicated writes that are timely.
versions_stay :
    (mode : String) (now : ℤ) (h : Handler) {n m : Node} (k : String) (ts : Timestamp)
    → (mode == "causal") ≡ false
    → Reach (new_node mode Store.new (Hlc.new now) none h) n
    → Reach n m
    → Covers (n.store.entries k) ts
    → Covers (m.store.entries k) ts
versions_stay mode now h k ts direct r run =
    Reach-Covers k ts (Reach-IsDirectNode (new_node-IsDirectNode mode now h direct) r) run
