-- ===== src/Cluster/Causal/Deliveries.antt =====
-- The delivery of a request to a node of a cluster in causal mode keeps the invariant.
use distributed_key_value_st.Prelude.{
  ◌≡◌, ◌⊎◌, inl, inr, refl, sym, subst, ap, ◌∙◌, Option, none, some, List, [], ◌∷◌, Memᴰ,
}
use distributed_key_value_st.Prelude.Int.{ℤ}
use distributed_key_value_st.Prelude.Result.{Result, ok, err}
use distributed_key_value_st.Hlc
use distributed_key_value_st.Hlc.{Timestamp, Clock, reading}
use distributed_key_value_st.Hlc.Order.{NotLater, NotLater_of_Earlier}
use distributed_key_value_st.Hlc.Monotone.{receive-later, receive-reading}
use distributed_key_value_st.Store.{Dependency}
use distributed_key_value_st.Store.Converge.{Write}
use distributed_key_value_st.Buffer.{PendingWrite}
use distributed_key_value_st.Buffer.Agreement.{write_of}
use distributed_key_value_st.Proto.Repl
use distributed_key_value_st.Replication.{Peer, Options, Send}
use distributed_key_value_st.Wire.{from_proto_ts}
use distributed_key_value_st.Server
use distributed_key_value_st.Server.{Node}
use distributed_key_value_st.Server.Invariant.{IsCausalNode}
use distributed_key_value_st.Server.Direct.{replicate_unstamped}
use distributed_key_value_st.Server.Receipts.{
  IsTimely, replicate-IsCausalNode, replicate_buffered, replicate_unbuffered,
}
use distributed_key_value_st.Cluster.{Cluster, carried, accepted, after_delivery}
use distributed_key_value_st.Cluster.Carried.{IsSent}
use distributed_key_value_st.Cluster.Spread.{update-All, delivery-IsSpread}
use distributed_key_value_st.Cluster.Quiet.{IsConnected}
use distributed_key_value_st.Cluster.Causal.{
  IsTraced, IsReplica, IsCausal, IsSourced, IsMet, pending,
}
use distributed_key_value_st.Cluster.Causal.Replica.{received, received-IsReplica}
use distributed_key_value_st.Cluster.Causal.Waiting.{received-IsSourced}
use distributed_key_value_st.Cluster.Causal.Calls.{untaken-IsTraced}

module _ (nodes : List Peer) (others : Peer → List Peer) (opts : Peer → Options) (c : Cluster)
    (v : IsTraced nodes others opts c) where
  -- What a node has not made itself is on its way to it.
  pub origin :
      (p : Peer)
      → IsConnected nodes others
      → Memᴰ p nodes
      → (w : Write) → Memᴰ w c.history
      → Memᴰ w (c.log p) ⊎ IsSent c.sent w p
  origin p connected known w m =
      let (q, own, on_way) = v.spread.spread w m in
      elim (connected q p known) [
        | inl same ↦ inl (subst (λ r. Memᴰ w (c.log r)) (sym same) own)
        | inr other ↦ inr (on_way p other)
      ]

  module _ (now : ℤ) (s : Send) (at : Memᴰ s c.sent) where
    abbrev m : Node
    m = c.node s.peer

    abbrev replica : IsReplica (others s.peer) (opts s.peer) m (c.log s.peer)
    replica = v.spread.each s.peer

    unchanged : IsTraced nodes others opts (after_delivery c s.peer m [])
    unchanged = untaken-IsTraced nodes others opts c v s.peer m replica (v.sourced s.peer)

    module _ (pts : Repl.HlcTimestamp) (e : s.request.timestamp ≡ some pts)
        (timely : IsTimely now m s.request.timestamp) (connected : IsConnected nodes others) where
      abbrev msg : Timestamp
      msg = from_proto_ts pts

      abbrev this : PendingWrite
      this = pending s.request (some pts)

      abbrev held : List PendingWrite
      held = replica.valid.buffered.0

      known : (w : Write) → Memᴰ w (write_of this ∷ []) → Memᴰ w c.history
      known w (Memᴰ.head f) =
          subst (λ u. Memᴰ u c.history) (ap (carried s.request) e ∙ sym f) (v.spread.sent_made s at)
      known w (Memᴰ.tail t) = elim t [ ]

      this_needs :
          (dep : Dependency) → Memᴰ dep this.val.deps → IsMet c.history this.val.timestamp dep
      this_needs dep d =
          subst (λ (q : PendingWrite). IsMet c.history q.val.timestamp dep)
            (ap (pending s.request) e)
            (v.sent_needs s dep at (
              subst (λ (q : PendingWrite). Memᴰ dep q.val.deps) (sym (ap (pending s.request) e)) d))

      abbrev after : Clock → Node
      after clk =
          received (others s.peer) (opts s.peer) m (c.log s.peer) replica held
            replica.valid.buffered.1 this clk

      taken-IsTraced :
          (clk : Clock)
          → IsCausalNode (after clk)
          → NotLater (reading m.clock) (reading clk)
          → IsTraced nodes others opts (after_delivery c s.peer (after clk) (write_of this ∷ []))
      taken-IsTraced clk valid later = record {
        spread =
            delivery-IsSpread (IsCausal others opts) others c v.spread s.peer (after clk)
              (write_of this ∷ [])
              (received-IsReplica (others s.peer) (opts s.peer) m (c.log s.peer) replica held
                replica.valid.buffered.1 this clk valid)
              known;
        sent_needs = v.sent_needs;
        sourced =
            update-All (λ q l k. IsSourced nodes q c.history c.sent l k) c.taken c.node s.peer
              (write_of this ∷ c.taken s.peer) (after clk)
              (received-IsSourced s.peer c.sent (c.taken s.peer) c.history (c.log s.peer)
                (others s.peer) (opts s.peer) nodes m replica (v.sourced s.peer)
                (v.spread.taken_logged s.peer) held replica.valid.buffered.1 this clk this_needs
                later (origin s.peer connected))
              v.sourced;
      }

      answered-IsTraced :
          (r : Clock × Result Timestamp)
          → Hlc.receive now msg m.clock ≡ r
          → IsTraced nodes others opts (
              after_delivery c s.peer
                (Server.replicate now m s.request).0
                (accepted now m.clock s.request (some pts)))
      answered-IsTraced (clk, ok stamp) h =
          let same =
            replicate_buffered now m s.request pts held stamp replica.valid.in_mode
              replica.valid.buffered.1 e h in
          rw (same, h)
            (taken-IsTraced clk
              (subst IsCausalNode same
                (replicate-IsCausalNode now m s.request replica.valid timely))
              (rw (receive-reading now m.clock msg h)
                (NotLater_of_Earlier (reading m.clock) stamp (receive-later now m.clock msg h).0)))
      answered-IsTraced (clk, err x) h =
          rw (replicate_unbuffered now m s.request pts x e h, h) unchanged

    pub delivered-IsTraced :
        (t : Option Repl.HlcTimestamp)
        → s.request.timestamp ≡ t
        → IsTimely now m s.request.timestamp
        → IsConnected nodes others
        → IsTraced nodes others opts (
            after_delivery c s.peer
              (Server.replicate now m s.request).0
              (accepted now m.clock s.request t))
    delivered-IsTraced none e timely connected =
        rw (replicate_unstamped now m s.request e) unchanged
    delivered-IsTraced (some pts) e timely connected =
        answered-IsTraced pts e timely connected (Hlc.receive now (from_proto_ts pts) m.clock) refl
