-- ===== src/Cluster.antt =====
-- A cluster of nodes and the network between them: each node is internal/server/node.go's, each step
-- a call of one of its methods, by a client or by the delivery of a request that a node has sent. A
-- request stays in `sent` when it is delivered, so a request may come late, again, or never.
-- `history`, `log` and `taken` record for the statements what was written, what each node wrote or
-- took, and what it took from others.
pub mod Carried
pub mod Spread
pub mod Writes
pub mod Runs
pub mod Quiet
pub mod Causal
use distributed_key_value_st.Prelude.{
  ℕ, String, ◌≡◌, ◌≢◌, Option, none, some, List, [], ◌∷◌, ◌++◌, Memᴰ, if◌then◌else◌, ◌==◌,
}
use distributed_key_value_st.Prelude.Int.{ℤ}
use distributed_key_value_st.Prelude.Result.{Result, ok, err}
use distributed_key_value_st.Hlc
use distributed_key_value_st.Hlc.{Timestamp, Clock, zero_ts}
use distributed_key_value_st.Store.{Value, tombstone}
use distributed_key_value_st.Store.Converge.{Write}
use distributed_key_value_st.Buffer.Causal.{effective}
use distributed_key_value_st.Proto.Kv.{PutRequest, DeleteRequest, GetRequest}
use distributed_key_value_st.Proto.Repl
use distributed_key_value_st.Proto.Repl.{ReplicateRequest}
use distributed_key_value_st.Replication.{Peer, Reply, Send}
use distributed_key_value_st.Wire.{from_proto_ts, replicated_value}
use distributed_key_value_st.Server
use distributed_key_value_st.Server.{Node, put_value, snapshot_reads}
use distributed_key_value_st.Server.Receipts.{IsTimely}

pub record Cluster : Type 0 where
  pub node : Peer → Node
  pub sent : List Send
  pub history : List Write
  pub log : Peer → List Write
  pub taken : Peer → List Write

abbrev pub update {ℓ} : {A : Type ℓ} → (Peer → A) → Peer → A → Peer → A
update f p a q = if p == q then a else f q

-- The write that a call adds, if the clock stamps it.
abbrev pub made : Result Timestamp → (Timestamp → Write) → List Write
made (ok ts) w = w ts ∷ []
made (err e) w = []

-- The write that a request carries, by the timestamp in it.
abbrev pub carried : ReplicateRequest → Option Repl.HlcTimestamp → Write
carried req none = (req.key, effective (replicated_value req zero_ts))
carried req (some pts) = (req.key, effective (replicated_value req (from_proto_ts pts)))

abbrev pub sent_write : Send → Write
sent_write s = carried s.request s.request.timestamp

-- The write that a delivery adds, if the request has a timestamp and the clock accepts it.
abbrev pub accepted : ℤ → Clock → ReplicateRequest → Option Repl.HlcTimestamp → List Write
accepted now clk req none = []
accepted now clk req (some pts) =
    made (Hlc.receive now (from_proto_ts pts) clk).1 (λ _. carried req (some pts))

-- The cluster after a client's call at `p`, which left the node `n` and sent `sent`.
abbrev pub after_call : Cluster → Peer → Node → List Send → List Write → Cluster
after_call c p n sent ws = record c {
  node = update c.node p n;
  sent = sent ++ c.sent;
  history = ws ++ c.history;
  log = update c.log p (ws ++ c.log p);
}

-- The cluster after a delivery or a read at `p`.
abbrev pub after_delivery : Cluster → Peer → Node → List Write → Cluster
after_delivery c p n ws = record c {
  node = update c.node p n;
  log = update c.log p (ws ++ c.log p);
  taken = update c.taken p (ws ++ c.taken p);
}

-- The values that clients put have bytes: an empty one is replicated as a deletion.
pub data Step (c : Cluster) : Cluster → Type 0 where
  putting :
      (call : Peer → ReplicateRequest → Reply) (p : Peer) (now : ℤ) (req : PutRequest)
      → req.value ≢ []
      → Step c (
          after_call c p
            (Server.put call now (c.node p) req).0
            (Server.put call now (c.node p) req).1
            (made
              (Hlc.send now (c.node p).clock).1
              (λ ts. (req.key, put_value req ts (snapshot_reads (c.node p)).0))))
  deleting :
      (call : Peer → ReplicateRequest → Reply) (p : Peer) (now : ℤ) (req : DeleteRequest)
      → Step c (
          after_call c p
            (Server.delete call now (c.node p) req).0
            (Server.delete call now (c.node p) req).1
            (made (Hlc.send now (c.node p).clock).1 (λ ts. (req.key, tombstone ts))))
  getting :
      (p : Peer) (req : GetRequest) → Step c (after_delivery c p (Server.get (c.node p) req).0 [])
  delivering :
      (now : ℤ) (s : Send)
      → Memᴰ s c.sent
      → IsTimely now (c.node s.peer) s.request.timestamp
      → Step c (
          after_delivery c s.peer
            (Server.replicate now (c.node s.peer) s.request).0
            (accepted now (c.node s.peer).clock s.request s.request.timestamp))

pub data Reach (c : Cluster) : Cluster → Type 0 where
  here : Reach c c
  next : {d e : Cluster} → Reach c d → Step d e → Reach c e
