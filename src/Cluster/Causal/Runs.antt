-- ===== src/Cluster/Causal/Runs.antt =====
-- A cluster in causal mode in use: every run from its start keeps the invariant.
use distributed_key_value_st.Prelude.{refl, some, List, []}
use distributed_key_value_st.Prelude.Int.{ℤ, pos, ◌≤ℤ◌}
use distributed_key_value_st.Hlc
use distributed_key_value_st.Store
use distributed_key_value_st.Replication.{Peer, Options, causal}
use distributed_key_value_st.Server.{new_node}
use distributed_key_value_st.Server.Steps.{new_node-IsCausalNode}
use distributed_key_value_st.Cluster.{
  Cluster, Step, Reach, putting, deleting, getting, delivering, here, next,
}
use distributed_key_value_st.Cluster.Quiet.{IsConnected}
use distributed_key_value_st.Cluster.Causal.{IsTraced}
use distributed_key_value_st.Cluster.Causal.Calls.{put-IsTraced, delete-IsTraced, get-IsTraced}
use distributed_key_value_st.Cluster.Causal.Deliveries.{delivered-IsTraced}

-- A cluster as it starts: every node is new, in causal mode, with these peers.
abbrev pub start : (Peer → List Peer) → (Peer → Options) → (Peer → ℤ) → Cluster
start others opts now = record {
  node = λ p. new_node "causal" Store.new (Hlc.new (now p)) (some []) (causal (others p) (opts p));
  sent = [];
  history = [];
  log = λ p. [];
  taken = λ p. [];
}

module _ (nodes : List Peer) (others : Peer → List Peer) (opts : Peer → Options) where
  pub start-IsTraced :
      (now : Peer → ℤ)
      → ((p : Peer) → pos 0 ≤ℤ now p)
      → IsTraced nodes others opts (start others opts now)
  unfolding new_node
  start-IsTraced now begun = record {
    spread = record {
      each = λ p. record {
        valid = new_node-IsCausalNode (now p) (causal (others p) (opts p)) (begun p);
        handled = refl;
        written = λ k v e. cc;
        accounted = λ w m. elim m [ ];
        held_logged = λ q m. elim m [ ];
      };
      logged = λ p w m. m;
      taken_logged = λ p w m. m;
      sent_made = λ s m. elim m [ ];
      spread = λ w m. elim m [ ];
    };
    sent_needs = λ s dep m d. elim m [ ];
    sourced = λ p. record {
      reads = λ dep m. elim m [ ];
      needs = λ q dep m d. elim m [ ];
      waiting = λ known q m. elim m [ ];
    };
  }

  module _ (connected : IsConnected nodes others) where
    Step-IsTraced :
        {c d : Cluster} → Step c d → IsTraced nodes others opts c → IsTraced nodes others opts d
    Step-IsTraced {c} (putting call p now req bytes) v =
        put-IsTraced nodes others opts c v p call now req (Hlc.send now (c.node p).clock) bytes refl
    Step-IsTraced {c} (deleting call p now req) v =
        delete-IsTraced nodes others opts c v p call now req (Hlc.send now (c.node p).clock) refl
    Step-IsTraced {c} (getting p req) v = get-IsTraced nodes others opts c v p req
    Step-IsTraced {c} (delivering now s at timely) v =
        delivered-IsTraced nodes others opts c v now s at s.request.timestamp refl timely connected

    pub Reach-IsTraced :
        {c d : Cluster} → IsTraced nodes others opts c → Reach c d → IsTraced nodes others opts d
    Reach-IsTraced v here = v
    Reach-IsTraced v (next r s) = Step-IsTraced s (Reach-IsTraced v r)
