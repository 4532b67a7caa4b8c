-- ===== src/Cluster/Quiet.antt =====
-- What the nodes of a cluster in eventual mode hold once everything that was sent to them has come.
use distributed_key_value_st.Prelude.{◌≡◌, ◌⊎◌, inl, inr, refl, sym, subst, none, List, [], Memᴰ}
use distributed_key_value_st.Prelude.Int.{ℤ}
use distributed_key_value_st.Hlc
use distributed_key_value_st.Store
use distributed_key_value_st.Store.{Store}
use distributed_key_value_st.Store.Converge.{
  Write, IsMergeOf, IsMergeOf-unique, UniquelyStamped, SameWrites,
}
use distributed_key_value_st.Replication.{Peer, Options, Send, eventual}
use distributed_key_value_st.Server.{new_node}
use distributed_key_value_st.Cluster.{Cluster, Reach, sent_write}
use distributed_key_value_st.Cluster.Spread.{IsSpread}
use distributed_key_value_st.Cluster.Writes.{IsEventual}
use distributed_key_value_st.Cluster.Runs.{Reach-IsSpread}

-- A cluster as it starts: every node is new, in eventual mode, with these peers.
abbrev pub start : (Peer → List Peer) → (Peer → Options) → (Peer → ℤ) → Cluster
start others opts now = record {
  node = λ p. new_node "eventual" Store.new (Hlc.new (now p)) none (eventual (others p) (opts p));
  sent = [];
  history = [];
  log = λ p. [];
  taken = λ p. [];
}

start-IsSpread :
    (others : Peer → List Peer) (opts : Peer → Options) (now : Peer → ℤ)
    → IsSpread (IsEventual others opts) others (start others opts now)
unfolding new_node
start-IsSpread others opts now = record {
  each = λ p. record {
    in_mode = refl;
    handled = refl;
    within = λ k v e. cc;
    merged = record { written = λ k v e. cc; covered = λ w m. elim m [ ] };
  };
  logged = λ p w m. m;
  taken_logged = λ p w m. m;
  sent_made = λ s m. elim m [ ];
  spread = λ w m. elim m [ ];
}

-- Every node that `nodes` names has taken what was sent to it.
abbrev pub IsQuiet : List Peer → Cluster → Type 0
IsQuiet nodes c =
    (s : Send) → Memᴰ s c.sent → Memᴰ s.peer nodes → Memᴰ (sent_write s) (c.log s.peer)

-- Every node has each other one of `nodes` among its peers.
abbrev pub IsConnected : List Peer → (Peer → List Peer) → Type 0
IsConnected nodes others = (p q : Peer) → Memᴰ q nodes → (q ≡ p) ⊎ Memᴰ q (others p)

same_merge : (s : Store) (ws vs : List Write) → SameWrites ws vs → IsMergeOf s ws → IsMergeOf s vs
same_merge s ws vs same m = record {
  written = λ k v h. (same (k, v)).0 (m.written k v h);
  covered = λ w h. m.covered w ((same w).1 h);
}

module _ (nodes : List Peer) (others : Peer → List Peer) (opts : Peer → Options) (c : Cluster)
    (v : IsSpread (IsEventual others opts) others c) (connected : IsConnected nodes others)
    (quiet : IsQuiet nodes c) where
  took_all : (q : Peer) (w : Write) → Memᴰ q nodes → Memᴰ w c.history → Memᴰ w (c.log q)
  took_all q w at m =
      let (p, own, on_way) = v.spread w m in
      elim (connected p q at) [
        | inl same ↦ subst (λ r. Memᴰ w (c.log r)) (sym same) own
        | inr other ↦
            let (s, there, to, this) = on_way q other in
            subst (λ r. Memᴰ w (c.log r)) to
              (subst (λ u. Memᴰ u (c.log s.peer)) this
                (quiet s there (subst (λ r. Memᴰ r nodes) (sym to) at)))
      ]

  merged_all : (q : Peer) → Memᴰ q nodes → IsMergeOf (c.node q).store c.history
  merged_all q at =
      same_merge (c.node q).store (c.log q) c.history (λ w. (v.logged q w, took_all q w at))
        (v.each q).merged

-- In a cluster in eventual mode whose nodes are all connected, after any puts of values with bytes,
-- deletions and reads, with the requests between nodes delivered in any order, again and again or
-- not yet, by clocks in step with them: once every node has taken what was sent to it, each node
-- holds the last write of every key, and any two hold the same store, if a key and a timestamp
-- name one write.
pub quiet_converges :
    (nodes : List Peer) (others : Peer → List Peer) (opts : Peer → Options) (now : Peer → ℤ)
    {c : Cluster} (p q : Peer)
    → IsConnected nodes others
    → Reach (start others opts now) c
    → IsQuiet nodes c
    → UniquelyStamped c.history
    → Memᴰ p nodes
    → Memᴰ q nodes
    → IsMergeOf (c.node p).store c.history × ((c.node p).store ≡ (c.node q).store)
quiet_converges nodes others opts now {c} p q connected run quiet unique at_p at_q =
    let v = Reach-IsSpread others opts (start-IsSpread others opts now) run in
    let mp = merged_all nodes others opts c v connected quiet p at_p in
    let mq = merged_all nodes others opts c v connected quiet q at_q in
    (mp, IsMergeOf-unique _ _ c.history c.history unique (λ w. ((λ m. m), (λ m. m))) mp mq)
