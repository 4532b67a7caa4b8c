-- ===== src/Cluster/Writes.antt =====
-- A node in eventual mode takes a write, its own or another node's, and keeps its invariant.
use distributed_key_value_st.Prelude.{String, ◌≡◌, subst, List, ◌∷◌}
use distributed_key_value_st.Prelude.Int.{ℤ}
use distributed_key_value_st.Prelude.Result.{ok}
use distributed_key_value_st.Hlc
use distributed_key_value_st.Hlc.{Timestamp, Clock, reading}
use distributed_key_value_st.Hlc.Order.{NotLater, NotLater_of_Earlier}
use distributed_key_value_st.Hlc.Monotone.{send-later, receive-later, receive-reading}
use distributed_key_value_st.Store
use distributed_key_value_st.Store.{Store, Value, tombstone}
use distributed_key_value_st.Store.Converge.{Write, IsMergeOf}
use distributed_key_value_st.Replication.{Peer, Options, eventual}
use distributed_key_value_st.Server.{Node}
use distributed_key_value_st.Store.Within.{
  IsWithin, IsWithin-later, assign-IsWithin, apply-IsWithin,
}
use distributed_key_value_st.Store.Taken.{assign-IsMergeOf, apply-IsMergeOf}

-- A node in eventual mode with these peers, which holds the merge of `log`, no part of it stamped
-- later than its clock.
pub record IsEventualNode (peers : List Peer) (opts : Options) (n : Node) (log : List Write)
    : Type 0 where
  pub in_mode : n.mode ≡ "eventual"
  pub handled : n.handler ≡ eventual peers opts
  pub within : IsWithin (reading n.clock) n.store
  pub merged : IsMergeOf n.store log

-- ... for each node of a cluster.
abbrev pub IsEventual : (Peer → List Peer) → (Peer → Options) → Peer → Node → List Write → Type 0
IsEventual others opts p n log = IsEventualNode (others p) (opts p) n log

module _ (peers : List Peer) (opts : Options) (n : Node) (log : List Write)
    (v : IsEventualNode peers opts n log) where
  -- A write stamped by the node's own clock, stored whatever was there.
  pub written-IsEventualNode :
      (now : ℤ) (clk : Clock) (ts : Timestamp) (key : String) (val : Value)
      → Hlc.send now n.clock ≡ (clk, ok ts)
      → val.timestamp ≡ ts
      → IsEventualNode peers opts
          (record n { clock = clk; store = Store.assign n.store key val })
          ((key, val) ∷ log)
  written-IsEventualNode now clk ts key val h stamp =
      let sent = send-later now n.clock h in
      let within : IsWithin val.timestamp n.store =
        IsWithin-later (reading n.clock) val.timestamp n.store
          (rw stamp (NotLater_of_Earlier (reading n.clock) ts sent.0)) v.within in
      record {
        in_mode = v.in_mode;
        handled = v.handled;
        within = rw (sent.1) (
            subst (λ t. IsWithin t (Store.assign n.store key val)) stamp
              (assign-IsWithin n.store key val within));
        merged = assign-IsMergeOf n.store log key val v.merged within;
      }

  -- A write of another node, taken by the last-write-wins rule.
  pub taken-IsEventualNode :
      (now : ℤ) (msg : Timestamp) (clk : Clock) (stamp : Timestamp) (key : String) (val : Value)
      → Hlc.receive now msg n.clock ≡ (clk, ok stamp)
      → NotLater val.timestamp stamp
      → IsEventualNode peers opts
          (record n { clock = clk; store = (Store.apply n.store key val).0 })
          ((key, val) ∷ log)
  taken-IsEventualNode now msg clk stamp key val h low =
      let read = receive-reading now n.clock msg h in
      let within : IsWithin stamp n.store =
        IsWithin-later (reading n.clock) stamp n.store
          (NotLater_of_Earlier (reading n.clock) stamp (receive-later now n.clock msg h).0)
          v.within in
      record {
        in_mode = v.in_mode;
        handled = v.handled;
        within = rw read (apply-IsWithin stamp n.store key val within low);
        merged = apply-IsMergeOf n.store log key val v.merged;
      }
