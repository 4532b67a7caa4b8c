-- ===== src/Cluster/Runs.antt =====
-- A cluster in eventual mode in use: each call and each delivery keeps the invariant.
use distributed_key_value_st.Prelude.{
  String, ◌≡◌, ◌≢◌, refl, sym, ap, subst, ◌∙◌, Option, none, some, List, [], ◌∷◌, Memᴰ,
}
use distributed_key_value_st.Prelude.Int.{ℤ}
use distributed_key_value_st.Prelude.Result.{Result, ok, err}
use distributed_key_value_st.Hlc
use distributed_key_value_st.Hlc.{Timestamp, Clock, reading}
use distributed_key_value_st.Hlc.Order.{NotLater, NotLater_of_Earlier}
use distributed_key_value_st.Hlc.Monotone.{receive-later_message_iff}
use distributed_key_value_st.Store
use distributed_key_value_st.Store.{Value, tombstone}
use distributed_key_value_st.Store.Converge.{Write}
use distributed_key_value_st.Buffer.Causal.{effective, timestamp-effective}
use distributed_key_value_st.Proto.Kv.{PutRequest, DeleteRequest, GetRequest}
use distributed_key_value_st.Proto.Repl
use distributed_key_value_st.Proto.Repl.{ReplicateRequest}
use distributed_key_value_st.Replication.{Peer, Reply, Options, Send, build_replicate_request}
use distributed_key_value_st.Wire.{from_proto_ts, replicated_value}
use distributed_key_value_st.Server
use distributed_key_value_st.Server.{Node, new_node, put_value, snapshot_reads}
use distributed_key_value_st.Server.Receipts.{IsTimely}
use distributed_key_value_st.Server.Direct.{
  put_unmade, delete_unmade, replicate_taken, replicate_refused, replicate_unstamped,
}
use distributed_key_value_st.Server.Eventual.{
  put_made, delete_made, get_unchanged, snapshot_reads_none, send_to, to_each,
}
use distributed_key_value_st.Cluster.{
  Cluster, Step, Reach, made, carried, accepted, after_call, after_delivery, putting, deleting,
  getting, delivering, here, next,
}
use distributed_key_value_st.Cluster.Carried.{
  carried-build, carried-build_tombstone, map-carried, IsSent-map,
}
use distributed_key_value_st.Cluster.Spread.{
  IsSpread, call-IsSpread, unmade-IsSpread, delivery-IsSpread,
}
use distributed_key_value_st.Cluster.Writes.{
  IsEventual, written-IsEventualNode, taken-IsEventualNode,
}

module _ (others : Peer → List Peer) (opts : Peer → Options) (c : Cluster)
    (v : IsSpread (IsEventual others opts) others c) where
  unchanged :
      (p : Peer) → IsSpread (IsEventual others opts) others (after_delivery c p (c.node p) [])
  unchanged p =
      delivery-IsSpread (IsEventual others opts) others c v p (c.node p) [] (v.each p)
        (λ w m. elim m [ ])

  uncalled : (p : Peer) → IsSpread (IsEventual others opts) others (after_call c p (c.node p) [] [])
  uncalled p = unmade-IsSpread (IsEventual others opts) others c v p (c.node p) (v.each p)

  module _ (call : Peer → ReplicateRequest → Reply) (p : Peer) (now : ℤ) where
    abbrev n : Node
    n = c.node p

    -- The call has made a write, and sent it to every peer.
    wrote :
        (now : ℤ) (clk : Clock) (ts : Timestamp) (key : String) (val : Value)
        → Hlc.send now n.clock ≡ (clk, ok ts)
        → val.timestamp ≡ ts
        → carried
            (build_replicate_request key val [])
            (build_replicate_request key val []).timestamp
          ≡ (key, val)
        → IsSpread (IsEventual others opts) others (
            after_call c p
              (record n { clock = clk; store = Store.assign n.store key val })
              (to_each (others p) (opts p) key val)
              ((key, val) ∷ []))
    wrote now clk ts key val h stamp carries =
        call-IsSpread (IsEventual others opts) others c v p _ (to_each (others p) (opts p) key val)
          (key, val)
          (written-IsEventualNode (others p) (opts p) n (c.log p) (v.each p) now clk ts key val h
            stamp)
          (map-carried (others p) (send_to (opts p) key val) (key, val) (λ q. carries))
          (IsSent-map (others p) (send_to (opts p) key val) (key, val) (λ q. carries) (λ q. refl))

    put-IsSpread :
        (req : PutRequest) (r : Clock × Result Timestamp)
        → req.value ≢ []
        → Hlc.send now n.clock ≡ r
        → IsSpread (IsEventual others opts) others (
            after_call c p (Server.put call now n req).0 (Server.put call now n req).1 (
              made
                (Hlc.send now n.clock).1
                (λ ts. (req.key, put_value req ts (snapshot_reads n).0))))
    put-IsSpread req (clk, ok ts) bytes h =
        let e =
          put_made call n (others p) (opts p) (v.each p).in_mode (v.each p).handled now clk req ts
            h in
        rw
          (
            e.0,
            e.1,
            h,
            snapshot_reads_none call n (others p) (opts p) (v.each p).in_mode (v.each p).handled,
          )
          (wrote now clk ts req.key (put_value req ts []) h refl
            (carried-build req.key req ts [] bytes))
    put-IsSpread req (clk, err x) bytes h =
        let e = put_unmade call n now req x h in
        rw (ap (λ r. r.0) e, ap (λ r. r.1) e, h) (uncalled p)

    delete-IsSpread :
        (req : DeleteRequest) (r : Clock × Result Timestamp)
        → Hlc.send now n.clock ≡ r
        → IsSpread (IsEventual others opts) others (
            after_call c p
              (Server.delete call now n req).0
              (Server.delete call now n req).1
              (made (Hlc.send now n.clock).1 (λ ts. (req.key, tombstone ts))))
    delete-IsSpread req (clk, ok ts) h =
        let e =
          delete_made call n (others p) (opts p) (v.each p).in_mode (v.each p).handled now clk req
            ts h in
        rw (e.0, e.1, h)
          (wrote now clk ts req.key (tombstone ts) h refl (carried-build_tombstone req.key ts []))
    delete-IsSpread req (clk, err x) h =
        let e = delete_unmade call n now req x h in
        rw (ap (λ r. r.0) e, ap (λ r. r.1) e, h) (uncalled p)

  get-IsSpread :
      (p : Peer) (req : GetRequest)
      → IsSpread
          (IsEventual others opts)
          others
          (after_delivery c p (Server.get (c.node p) req).0 [])
  get-IsSpread p req =
      rw
        (get_unchanged (λ _ _. Reply.failed) (c.node p) (others p) (opts p) (v.each p).in_mode
          (v.each p).handled req)
        (unchanged p)

  module _ (now : ℤ) (s : Send) (at : Memᴰ s c.sent) where
    abbrev m : Node
    m = c.node s.peer

    module _ (pts : Repl.HlcTimestamp) (e : s.request.timestamp ≡ some pts) where
      abbrev msg : Timestamp
      msg = from_proto_ts pts

      abbrev val : Value
      val = effective (replicated_value s.request msg)

      stamp-val : val.timestamp ≡ msg
      unfolding replicated_value
      stamp-val = timestamp-effective (replicated_value s.request msg)

      known : (w : Write) → Memᴰ w (carried s.request (some pts) ∷ []) → Memᴰ w c.history
      known w (Memᴰ.head f) =
          subst (λ u. Memᴰ u c.history) (ap (carried s.request) e ∙ sym f) (v.sent_made s at)
      known w (Memᴰ.tail t) = elim t [ ]

      answered-IsSpread :
          (r : Clock × Result Timestamp)
          → Hlc.receive now msg m.clock ≡ r
          → IsTimely now m (some pts)
          → IsSpread (IsEventual others opts) others (
              after_delivery c s.peer
                (Server.replicate now m s.request).0
                (accepted now m.clock s.request (some pts)))
      answered-IsSpread (clk, ok stamp) h timely =
          let w = v.each s.peer in
          let low : NotLater val.timestamp stamp = rw (stamp-val) (
            NotLater_of_Earlier msg stamp
              ((receive-later_message_iff now m.clock msg h).1 timely.1)) in
          rw (replicate_taken m (rw (w.in_mode) refl) now s.request pts clk e stamp h, h)
            (delivery-IsSpread (IsEventual others opts) others c v s.peer _
              ((s.request.key, val) ∷ [])
              (taken-IsEventualNode (others s.peer) (opts s.peer) m (c.log s.peer) w now msg clk
                stamp s.request.key val h low)
              known)
      answered-IsSpread (clk, err x) h timely =
          let w = v.each s.peer in
          rw (replicate_refused m (rw (w.in_mode) refl) now s.request pts clk e x h, h)
            (unchanged s.peer)

    delivered-IsSpread :
        (t : Option Repl.HlcTimestamp)
        → s.request.timestamp ≡ t
        → IsTimely now m t
        → IsSpread (IsEventual others opts) others (
            after_delivery c s.peer
              (Server.replicate now m s.request).0
              (accepted now m.clock s.request t))
    delivered-IsSpread none e timely = rw (replicate_unstamped now m s.request e) (unchanged s.peer)
    delivered-IsSpread (some pts) e timely =
        answered-IsSpread pts e (Hlc.receive now (from_proto_ts pts) m.clock) refl timely

Step-IsSpread :
    (others : Peer → List Peer) (opts : Peer → Options) {c d : Cluster}
    → Step c d
    → IsSpread (IsEventual others opts) others c
    → IsSpread (IsEventual others opts) others d
Step-IsSpread others opts {c} (putting call p now req bytes) v =
    put-IsSpread others opts c v call p now req (Hlc.send now (c.node p).clock) bytes refl
Step-IsSpread others opts {c} (deleting call p now req) v =
    delete-IsSpread others opts c v call p now req (Hlc.send now (c.node p).clock) refl
Step-IsSpread others opts {c} (getting p req) v = get-IsSpread others opts c v p req
Step-IsSpread others opts {c} (delivering now s at timely) v =
    delivered-IsSpread others opts c v now s at s.request.timestamp refl timely

pub Reach-IsSpread :
    (others : Peer → List Peer) (opts : Peer → Options) {c d : Cluster}
    → IsSpread (IsEventual others opts) others c
    → Reach c d
    → IsSpread (IsEventual others opts) others d
Reach-IsSpread others opts v here = v
Reach-IsSpread others opts v (next r s) =
    Step-IsSpread others opts s (Reach-IsSpread others opts v r)
