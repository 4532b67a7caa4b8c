-- ===== src/Cluster/Causal.antt =====
-- A cluster in causal mode: what each node keeps, and where the dependencies of the writes come from.
pub mod Replica
pub mod Waiting
pub mod Sources
pub mod Calls
pub mod Deliveries
pub mod Runs
pub mod Quiet
use distributed_key_value_st.Prelude.{String, ◌≡◌, ◌⊎◌, Option, none, some, List, Memᴰ}
use distributed_key_value_st.Hlc.{Timestamp, reading, zero_ts}
use distributed_key_value_st.Hlc.Order.{Earlier, NotLater}
use distributed_key_value_st.Store.{Value, Dependency}
use distributed_key_value_st.Store.Merge.{Covers}
use distributed_key_value_st.Store.Converge.{Write}
use distributed_key_value_st.Buffer.{PendingWrite}
use distributed_key_value_st.Buffer.Agreement.{write_of}
use distributed_key_value_st.Proto.Repl
use distributed_key_value_st.Proto.Repl.{ReplicateRequest}
use distributed_key_value_st.Replication.{Peer, Options, Send, causal}
use distributed_key_value_st.Wire.{from_proto_ts, replicated_value}
use distributed_key_value_st.Server.{Node}
use distributed_key_value_st.Server.Invariant.{IsCausalNode, reads_of, held_of}
use distributed_key_value_st.Cluster.{Cluster}
use distributed_key_value_st.Cluster.Carried.{IsSent}
use distributed_key_value_st.Cluster.Spread.{IsSpread}

-- The write that a request brings to the buffer, by the timestamp in it.
abbrev pub pending : ReplicateRequest → Option Repl.HlcTimestamp → PendingWrite
pending req none = record { key = req.key; val = replicated_value req zero_ts }
pending req (some pts) = record { key = req.key; val = replicated_value req (from_proto_ts pts) }

abbrev pub sent_pending : Send → PendingWrite
sent_pending s = pending s.request s.request.timestamp

-- The write is held.
abbrev pub IsHeld : List PendingWrite → Write → Type 0
IsHeld held w = (q : PendingWrite) × Memᴰ q held × (write_of q ≡ w)

-- A node in causal mode with these peers: its store shows writes of `log` only, and each of them is
-- held or covered.
pub record IsReplica (peers : List Peer) (opts : Options) (n : Node) (log : List Write)
    : Type 0 where
  pub valid : IsCausalNode n
  pub handled : n.handler ≡ causal peers opts
  pub written : (k : String) (v : Value) → n.store.entries k ≡ some v → Memᴰ (k, v) log
  pub accounted :
      (w : Write)
      → Memᴰ w log
      → IsHeld (held_of n.held) w ⊎ Covers (n.store.entries w.0) w.1.timestamp
  pub held_logged : (q : PendingWrite) → Memᴰ q (held_of n.held) → Memᴰ (write_of q) log

abbrev pub IsCausal : (Peer → List Peer) → (Peer → Options) → Peer → Node → List Write → Type 0
IsCausal others opts p n log = IsReplica (others p) (opts p) n log

-- The write provides the dependency.
abbrev pub Provides : Write → Dependency → Type 0
Provides w dep = (w.0 ≡ dep.key) × NotLater dep.min_ts w.1.timestamp

-- A write of the history, earlier than `ts`, provides the dependency.
abbrev pub IsMet : List Write → Timestamp → Dependency → Type 0
IsMet history ts dep = (w : Write) × Memᴰ w history × Provides w dep × Earlier w.1.timestamp ts

-- ... or one not later than `ts`.
abbrev pub IsRead : List Write → Timestamp → Dependency → Type 0
IsRead history ts dep = (w : Write) × Memᴰ w history × Provides w dep × NotLater w.1.timestamp ts

-- The write is held at the node, or on its way there and not taken without being held.
abbrev pub IsAwaited : Peer → List Send → List Write → List PendingWrite → Write → Type 0
IsAwaited p sent taken held w = IsHeld held w ⊎ (IsSent sent w p × (Memᴰ w taken → IsHeld held w))

-- A held write waits for an earlier one, which is to come or is held itself.
abbrev pub IsWaiting : Peer → List Send → List Write → List PendingWrite → PendingWrite → Type 0
IsWaiting p sent taken held q =
    (w : Write) × Earlier w.1.timestamp q.val.timestamp × IsAwaited p sent taken held w

-- What the node `p` has read or holds back goes back to writes of the history. That every held
-- write waits for one is known of the nodes that all others have among their peers.
pub record IsSourced (nodes : List Peer) (p : Peer) (history : List Write) (sent : List Send)
    (taken : List Write) (n : Node) : Type 0 where
  pub reads :
      (dep : Dependency) → Memᴰ dep (reads_of n.tracker) → IsRead history (reading n.clock) dep
  pub needs :
      (q : PendingWrite) (dep : Dependency)
      → Memᴰ q (held_of n.held)
      → Memᴰ dep q.val.deps
      → IsMet history q.val.timestamp dep
  pub waiting :
      Memᴰ p nodes
      → (q : PendingWrite) → Memᴰ q (held_of n.held)
      → IsWaiting p sent taken (held_of n.held) q

module _ (nodes : List Peer) (others : Peer → List Peer) (opts : Peer → Options) where
  pub record IsTraced (c : Cluster) : Type 0 where
    pub spread : IsSpread (IsCausal others opts) others c
    pub sent_needs :
        (s : Send) (dep : Dependency)
        → Memᴰ s c.sent
        → Memᴰ dep (sent_pending s).val.deps
        → IsMet c.history (sent_pending s).val.timestamp dep
    pub sourced : (p : Peer) → IsSourced nodes p c.history c.sent (c.taken p) (c.node p)
