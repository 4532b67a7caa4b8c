-- ===== src/Server/Follows.antt =====
-- A node outside causal mode and the same node after a call: at most one write has been added, no earlier
-- than what was there or by the last-write-wins rule.
use distributed_key_value_st.Prelude.{String, ◌≡◌, false, none, ◌==◌}
use distributed_key_value_st.Prelude.Int.{ℤ}
use distributed_key_value_st.Hlc
use distributed_key_value_st.Hlc.{Timestamp, Clock, reading}
use distributed_key_value_st.Hlc.Order.{NotLater}
use distributed_key_value_st.Store
use distributed_key_value_st.Store.{Store, Value, tombstone}
use distributed_key_value_st.Store.Merge.{Covers}
use distributed_key_value_st.Store.Converge.{Covers-apply}
use distributed_key_value_st.Store.Within.{
  IsWithin, IsWithin-later, Covers-assign, assign-IsWithin, apply-IsWithin,
}
use distributed_key_value_st.Replication.{Handler}
use distributed_key_value_st.Server.{Node, new_node}

-- The store of a node outside causal mode, no value of it stamped later than the node's clock.
pub record IsDirectNode (n : Node) : Type 0 where
  pub direct : (n.mode == "causal") ≡ false
  pub within : IsWithin (reading n.clock) n.store

pub new_node-IsDirectNode :
    (mode : String) (now : ℤ) (h : Handler)
    → (mode == "causal") ≡ false
    → IsDirectNode (new_node mode Store.new (Hlc.new now) none h)
unfolding new_node
new_node-IsDirectNode mode now h direct = record { direct = direct; within = λ k v e. cc }

-- The node `m` comes from `n` by one write stamped by its clock, or took none.
pub data Follows (n m : Node) : Type 0 where
  kept :
      m.mode ≡ n.mode
      → m.store ≡ n.store
      → NotLater (reading n.clock) (reading m.clock)
      → Follows n m
  assigned :
      (key : String) (val : Value)
      → m.mode ≡ n.mode
      → m.store ≡ Store.assign n.store key val
      → NotLater (reading n.clock) val.timestamp
      → NotLater val.timestamp (reading m.clock)
      → Follows n m
  applied :
      (key : String) (val : Value)
      → m.mode ≡ n.mode
      → m.store ≡ (Store.apply n.store key val).0
      → NotLater (reading n.clock) (reading m.clock)
      → NotLater val.timestamp (reading m.clock)
      → Follows n m

pub Follows-IsDirectNode : {n m : Node} → Follows n m → IsDirectNode n → IsDirectNode m
Follows-IsDirectNode {n} {m} (kept e s h) v = record {
  direct = rw e v.direct;
  within = rw s (IsWithin-later (reading n.clock) (reading m.clock) n.store h v.within);
}
Follows-IsDirectNode {n} {m} (assigned key val e s a b) v = record {
  direct = rw e v.direct;
  within = rw s (
      IsWithin-later val.timestamp (reading m.clock) (Store.assign n.store key val) b (
        assign-IsWithin n.store key val
          (IsWithin-later (reading n.clock) val.timestamp n.store a v.within)));
}
Follows-IsDirectNode {n} {m} (applied key val e s h b) v = record {
  direct = rw e v.direct;
  within = rw s (
      apply-IsWithin (reading m.clock) n.store key val
        (IsWithin-later (reading n.clock) (reading m.clock) n.store h v.within) b);
}

pub Follows-Covers :
    {n m : Node} (k : String) (ts : Timestamp)
    → Follows n m
    → IsDirectNode n
    → Covers (n.store.entries k) ts
    → Covers (m.store.entries k) ts
Follows-Covers k ts (kept e s h) v c = rw s c
Follows-Covers {n} k ts (assigned key val e s a b) v c = rw s (
    Covers-assign n.store key val
      (IsWithin-later (reading n.clock) val.timestamp n.store a v.within) k ts c)
Follows-Covers {n} k ts (applied key val e s h b) v c = rw s (Covers-apply n.store key k val ts c)
