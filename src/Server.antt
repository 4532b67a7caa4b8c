-- ===== src/Server.antt =====
-- internal/server/node.go: a node of the cluster, its client methods and the replication method.
-- A handler is one function from the node to the node that it leaves, what it sends to peers, and
-- its response or error. `now` is the machine's clock at the call, `call` what the RPCs to peers
-- come back with. A request's bytes are copied by the source and are values here.
pub mod Clients
pub mod Replica
pub mod LocalWrite
pub mod Invariant
pub mod Intake
pub mod Race
pub mod Reads
pub mod Receipts
pub mod Steps
pub mod Direct
pub mod Causal
pub mod Sessions
pub mod Eventual
pub mod CausalMode
pub mod Behind
pub mod Follows
pub mod Kept
pub mod Contact
pub mod Commit
use distributed_key_value_st.Prelude.{
  ℕ, String, Bool, true, false, ◌&&◌, Option, none, some, List, [], ◌∷◌, ◌++◌, if◌then◌else◌, ◌==◌,
}
use distributed_key_value_st.Prelude.Int.{ℤ}
use distributed_key_value_st.Prelude.Result.{Error, Result, ok, err}
use distributed_key_value_st.Hlc
use distributed_key_value_st.Hlc.{Timestamp, Clock, zero_ts}
use distributed_key_value_st.Store
use distributed_key_value_st.Store.{Store, Value, Dependency}
use distributed_key_value_st.Buffer
use distributed_key_value_st.Buffer.{Buffer, PendingWrite}
use distributed_key_value_st.Proto.Kv
use distributed_key_value_st.Proto.Kv.{
  PutRequest, PutResponse, GetRequest, GetResponse, DeleteRequest, DeleteResponse,
}
use distributed_key_value_st.Proto.Repl
use distributed_key_value_st.Proto.Repl.{ReplicateRequest, ReplicateResponse}
use distributed_key_value_st.Tracker.{ReadTracker, record_read, snapshot_and_clear}
use distributed_key_value_st.Wire.{to_proto_ts, from_proto_ts, replicated_value}
use distributed_key_value_st.Replication.{Peer, Reply, Handler, Send, Outcome, on_write}

-- The buffer holds the node's own store; `held` is the rest of it, none for a nil pointer.
pub record Node : Type 0 where
  pub mode : String
  pub store : Store
  pub clock : Clock
  pub held : Option (List PendingWrite)
  pub handler : Handler
  pub tracker : Option ReadTracker

unfoldable pub new_node : String → Store → Clock → Option (List PendingWrite) → Handler → Node
new_node mode s clk held handler = record {
  mode = mode;
  store = s;
  clock = clk;
  held = held;
  handler = handler;
  tracker = if mode == "causal" then some (record { reads = [] }) else none;
}

-- A method's result: the node, the requests under way to peers, and the response or error.
abbrev pub Effect : Type 0 → Type 0
Effect A = Node × List Send × Result A

-- `if n.Mode == "causal" && n.Tracker != nil { val.Deps = n.Tracker.SnapshotAndClear() }`
snapshot : Bool → Option ReadTracker → List Dependency × Option ReadTracker
snapshot true (some rt) = let (deps, rt') = snapshot_and_clear rt in (deps, some rt')
snapshot _ tracker = ([], tracker)

-- The dependencies that a write of the node carries, and the tracker that it leaves.
unfoldable pub snapshot_reads : Node → List Dependency × Option ReadTracker
unfolding snapshot snapshot_and_clear
snapshot_reads n = snapshot (n.mode == "causal") n.tracker

-- The value that `Put` and `Delete` make.
abbrev pub put_value : PutRequest → Timestamp → List Dependency → Value
put_value req ts deps = record { payload = req.value; timestamp = ts; deps = deps; deleted = false }

abbrev pub delete_value : Timestamp → List Dependency → Value
delete_value ts deps = record { payload = []; timestamp = ts; deps = deps; deleted = true }

-- The response after the handler has run, or its error.
respond : {A : Type 0} → Result (Unit {0}) → A → Result A
respond (ok _) resp = ok resp
respond (err e) resp = err e

-- The end of `Put` and `Delete`: the handler and the local write in the order of the mode. `local`
-- is the write to the store.
unfoldable pub write_through :
    {A : Type 0}
    → (Peer → ReplicateRequest → Reply)
    → Node
    → String
    → Value
    → (Store → Store)
    → A
    → Effect A
unfolding respond
write_through call n key val local resp =
    let out = on_write call n.handler key val in
    let written = record n { store = local n.store } in
    if n.mode == "strong"
    then elim (out.result) [ ok _ ↦ (written, out.sent, ok resp) | err e ↦ (n, out.sent, err e) ]
    else (written, out.sent, respond out.result resp)

-- `Put` and `Delete` after `Clock.Send`.
put_stamped :
    (Peer → ReplicateRequest → Reply) → Node → PutRequest → Result Timestamp → Effect PutResponse
unfolding write_through snapshot_reads
put_stamped call n req (err e) = (n, [], err e)
put_stamped call n req (ok ts) =
    let (deps, tracker) = snapshot_reads n in
    let val = put_value req ts deps in
    write_through call (record n { tracker = tracker }) req.key val (λ s. Store.put s req.key val)
      (record { timestamp = some (to_proto_ts ts) })

unfoldable pub put : (Peer → ReplicateRequest → Reply) → ℤ → Node → PutRequest → Effect PutResponse
unfolding put_stamped
put call now n req =
    let (clk, stamp) = Hlc.send now n.clock in put_stamped call (record n { clock = clk }) req stamp

delete_stamped :
    (Peer → ReplicateRequest → Reply)
    → Node
    → DeleteRequest
    → Result Timestamp
    → Effect DeleteResponse
unfolding write_through snapshot_reads
delete_stamped call n req (err e) = (n, [], err e)
delete_stamped call n req (ok ts) =
    let (deps, tracker) = snapshot_reads n in
    let val = delete_value ts deps in
    write_through call (record n { tracker = tracker }) req.key val (λ s. Store.delete s req.key ts)
      (record { timestamp = some (to_proto_ts ts) })

unfoldable pub delete :
    (Peer → ReplicateRequest → Reply) → ℤ → Node → DeleteRequest → Effect DeleteResponse
unfolding delete_stamped
delete call now n req =
    let (clk, stamp) = Hlc.send now n.clock in
    delete_stamped call (record n { clock = clk }) req stamp

-- `if n.Mode == "causal" && n.Tracker != nil { n.Tracker.Record(req.Key, val.Timestamp) }`
pub track : Bool → String → Timestamp → Option ReadTracker → Option ReadTracker
track true key ts (some rt) = some (record_read rt key ts)
track _ key ts tracker = tracker

unfoldable pub get : Node → GetRequest → Node × GetResponse
unfolding track record_read to_proto_ts
get n req =
    let (val, found) = Store.get n.store req.key in
    if found
    then (
      record n { tracker = track (n.mode == "causal") req.key val.timestamp n.tracker },
      record { value = val.payload; timestamp = some (to_proto_ts val.timestamp); found = true },
    )
    else (n, record { value = []; timestamp = none; found = false })

-- The write of `Replicate` outside causal mode.
unfoldable pub apply_direct : Node → String → Value → Node × Bool
apply_direct n key val =
    let (s, accepted) =
      if val.deleted
      then Store.apply_delete n.store key val.timestamp
      else Store.apply n.store key val in
    (record n { store = s }, accepted)

-- `if n.Mode == "causal" && n.Buffer != nil { n.Buffer.Receive(req.Key, val); ... }`
apply_replicated : Bool → Option (List PendingWrite) → Node → String → Value → Node × Bool
unfolding apply_direct
apply_replicated true (some held) n key val =
    let (b, _) = Buffer.receive (record { store = n.store; held = held }) key val in
    (record n { store = b.store; held = some b.held }, true)
apply_replicated _ _ n key val = apply_direct n key val

-- `Replicate` with a timestamp, after `Clock.Receive`.
replicate_received :
    Node → ReplicateRequest → Timestamp → Result Timestamp → Node × Result ReplicateResponse
unfolding apply_replicated
replicate_received n req ts (err e) = (n, err e)
replicate_received n req ts (ok _) =
    let (n', success) =
      apply_replicated (n.mode == "causal") n.held n req.key (replicated_value req ts) in
    (n', ok (record { success = success }))

unfoldable pub replicate : ℤ → Node → ReplicateRequest → Node × Result ReplicateResponse
unfolding replicate_received from_proto_ts
replicate now n req = elim (req.timestamp) [
  | none ↦ (n, ok (record { success = false }))
  | some ts ↦
      let (clk, stamp) = Hlc.receive now (from_proto_ts ts) n.clock in
      replicate_received (record n { clock = clk }) req (from_proto_ts ts) stamp
]
