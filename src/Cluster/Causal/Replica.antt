-- ===== src/Cluster/Causal/Replica.antt =====
-- One node in causal mode takes a write, its own or another node's, and keeps its invariant.
use distributed_key_value_st.Prelude.{
  String, ◌≡◌, ◌⊎◌, inl, inr, refl, sym, ap, subst, some, List, ◌∷◌, Memᴰ,
}
use distributed_key_value_st.Hlc.{Clock, reading}
use distributed_key_value_st.Hlc.Order.{NotLater}
use distributed_key_value_st.Store.{Value}
use distributed_key_value_st.Store.Merge.{Covers}
use distributed_key_value_st.Store.Converge.{Write}
use distributed_key_value_st.Store.Within.{
  IsWithin, assigned_from, Covers-assign, Covers-assign_self,
}
use distributed_key_value_st.Buffer
use distributed_key_value_st.Buffer.{Buffer, PendingWrite, version}
use distributed_key_value_st.Buffer.Causal.{version_lem, cell_version, timestamp-effective}
use distributed_key_value_st.Buffer.Delivery.{
  receive-Covers, receive-held, receive-Accounted, receive-Accounted_self,
}
use distributed_key_value_st.Buffer.Agreement.{write_of, receive-IsFrom}
use distributed_key_value_st.Replication.{Peer, Options}
use distributed_key_value_st.Server.{Node}
use distributed_key_value_st.Server.Invariant.{IsCausalNode, held_of}
use distributed_key_value_st.Server.CausalMode.{after_write}
use distributed_key_value_st.Cluster.Causal.{IsReplica, IsHeld}

-- The clock of a causal node bounds every value in its store.
pub IsWithin-of : (n : Node) → IsCausalNode n → IsWithin (reading n.clock) n.store
IsWithin-of n v k u e =
    subst (λ o. NotLater (cell_version o) (reading n.clock)) e
      (subst (λ t. NotLater t (reading n.clock)) (version_lem n.store k) (v.bounded k))

module _ (peers : List Peer) (opts : Options) (n : Node) (log : List Write)
    (v : IsReplica peers opts n log) where
  -- A write of its own, not stamped before anything in the store.
  pub written-IsReplica :
      (clk : Clock) (key : String) (val : Value)
      → IsWithin val.timestamp n.store
      → IsCausalNode (after_write n clk key val)
      → IsReplica peers opts (after_write n clk key val) ((key, val) ∷ log)
  written-IsReplica clk key val within valid = record {
    valid = valid;
    handled = v.handled;
    written = λ k u h. elim (assigned_from n.store key val within k u h) [
      | inl old ↦ Memᴰ.tail (v.written k u old)
      | inr this ↦ Memᴰ.head this
    ];
    accounted = λ w h. elim h [
      | Memᴰ.head e ↦ inr (rw e (Covers-assign_self n.store key val within))
      | Memᴰ.tail t ↦ elim (v.accounted w t) [
        | inl held ↦ inl held
        | inr covered ↦ inr (Covers-assign n.store key val within w.0 w.1.timestamp covered)
      ]
    ];
    held_logged = λ q m. Memᴰ.tail (v.held_logged q m);
  }

  -- A write of another node, received by the buffer.
  module _ (held : List PendingWrite) (is_held : n.held ≡ some held) (p : PendingWrite)
      (clk : Clock) where
    abbrev before : Buffer
    before = record { store = n.store; held = held }

    abbrev after : Buffer
    after = (Buffer.receive before p.key p.val).0

    abbrev pub received : Node
    received = record n { clock = clk; store = after.store; held = some after.held }

    logged : (q : PendingWrite) → Memᴰ q (p ∷ held) → Memᴰ (write_of q) (write_of p ∷ log)
    logged q (Memᴰ.head e) = Memᴰ.head (ap write_of e)
    logged q (Memᴰ.tail m) = Memᴰ.tail (v.held_logged q (rw is_held m))

    received_written :
        (k : String) (u : Value) → after.store.entries k ≡ some u → Memᴰ (k, u) (write_of p ∷ log)
    received_written k u h =
        elim (receive-IsFrom (p ∷ held) before p k u (λ q m. Memᴰ.tail m) (Memᴰ.head refl) h) [
          | inl old ↦ Memᴰ.tail (v.written k u old)
          | inr (q, mem, this) ↦
              subst (λ (w : Write). Memᴰ w (write_of p ∷ log)) (sym this) (logged q mem)
        ]

    -- What was taken before, or is taken now, is covered or held.
    pub received_accounted :
        (w : Write)
        → Memᴰ w (write_of p ∷ log)
        → IsHeld after.held w ⊎ Covers (after.store.entries w.0) w.1.timestamp
    received_accounted w (Memᴰ.head e) = elim (receive-Accounted_self before p.key p.val) [
      | inl mem ↦ inl (p, mem, sym e)
      | inr covered ↦ inr (rw (e, timestamp-effective) covered)
    ]
    received_accounted w (Memᴰ.tail t) = elim (v.accounted w t) [
      | inr covered ↦ inr (receive-Covers before p.key p.val w.0 w.1.timestamp covered)
      | inl (q, mem, this) ↦
          elim (receive-Accounted before p.key p.val q
            (inl (subst (λ h. Memᴰ q (held_of h)) is_held mem))) [
              | inl still ↦ inl (q, still, this)
              | inr covered ↦ inr (rw (← this, timestamp-effective) covered)
            ]
    ]

    received_logged : (q : PendingWrite) → Memᴰ q after.held → Memᴰ (write_of q) (write_of p ∷ log)
    received_logged q m = elim (receive-held before p.key p.val q m) [
      | inl old ↦ logged q (Memᴰ.tail old)
      | inr this ↦ logged q (Memᴰ.head this)
    ]

    pub received-IsReplica :
        IsCausalNode received → IsReplica peers opts received (write_of p ∷ log)
    received-IsReplica valid = record {
      valid = valid;
      handled = v.handled;
      written = received_written;
      accounted = received_accounted;
      held_logged = received_logged;
    }
