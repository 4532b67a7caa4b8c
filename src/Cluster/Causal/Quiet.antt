-- ===== src/Cluster/Causal/Quiet.antt =====
-- What the nodes of a cluster in causal mode hold once everything that was sent to them has come.
use distributed_key_value_st.Prelude.{
  ◌≡◌, ◌∙◌, inl, inr, refl, sym, ap, subst, List, [], ◌∷◌, Memᴰ, All, All-of_mem,
}
use distributed_key_value_st.Prelude.Int.{ℤ, pos, ◌≤ℤ◌}
use distributed_key_value_st.Hlc.Order.{NotLater, Earlier-irrefl, Earlier-trans_right}
use distributed_key_value_st.Store.Converge.{Write, IsMergeOf, IsMergeOf-unique, UniquelyStamped}
use distributed_key_value_st.Buffer.{PendingWrite}
use distributed_key_value_st.Buffer.Causal.{timestamp-effective}
use distributed_key_value_st.Buffer.Liveness.{earliest}
use distributed_key_value_st.Replication.{Peer, Options, Send}
use distributed_key_value_st.Server.Invariant.{held_of}
use distributed_key_value_st.Cluster.{Cluster, Reach, sent_write}
use distributed_key_value_st.Cluster.Carried.{IsSent}
use distributed_key_value_st.Cluster.Quiet.{IsConnected}
use distributed_key_value_st.Cluster.Causal.{IsTraced, IsHeld}
use distributed_key_value_st.Cluster.Causal.Deliveries.{origin}
use distributed_key_value_st.Cluster.Causal.Runs.{start, start-IsTraced, Reach-IsTraced}

-- Every node that `nodes` names has taken what was sent to it, from the one who sent it.
abbrev pub IsDelivered : List Peer → Cluster → Type 0
IsDelivered nodes c =
    (s : Send) → Memᴰ s c.sent → Memᴰ s.peer nodes → Memᴰ (sent_write s) (c.taken s.peer)

module _ (nodes : List Peer) (others : Peer → List Peer) (opts : Peer → Options) (c : Cluster)
    (v : IsTraced nodes others opts c) (connected : IsConnected nodes others)
    (delivered : IsDelivered nodes c) (p : Peer) (at : Memᴰ p nodes) where
  abbrev held : List PendingWrite
  held = held_of (c.node p).held

  arrived : (w : Write) → IsSent c.sent w p → Memᴰ w (c.taken p)
  arrived w (s, there, to, this) =
      subst (λ r. Memᴰ w (c.taken r)) to
        (subst (λ u. Memᴰ u (c.taken s.peer)) this
          (delivered s there (subst (λ r. Memᴰ r nodes) (sym to) at)))

  -- The earliest held write would wait for an earlier one that is held.
  not_earliest :
      (m : PendingWrite) → Memᴰ m held → ¬ All (λ q. NotLater m.val.timestamp q.val.timestamp) held
  not_earliest m mem low =
      let (w, earlier, awaits) = (v.sourced p).waiting at m mem in
      let (q, there, this) : IsHeld held w = elim awaits [
        | inl still ↦ still
        | inr (on_way, then_held) ↦ then_held (arrived w on_way)
      ] in
      Earlier-irrefl m.val.timestamp (
        Earlier-trans_right m.val.timestamp w.1.timestamp m.val.timestamp
          (subst (NotLater m.val.timestamp)
            (sym (timestamp-effective q.val) ∙ ap (λ (u : Write). u.1.timestamp) this)
            (All-of_mem (λ q. NotLater m.val.timestamp q.val.timestamp) held q low there))
          earlier)

  none_held : (ps : List PendingWrite) → held ≡ ps → ps ≡ []
  none_held [] e = refl
  none_held (x ∷ xs) e =
      let (m, mem, low) = earliest x xs in absurd (not_earliest m (rw e mem) (rw e low))

  merged : IsMergeOf (c.node p).store c.history
  merged = record {
    written = λ k u h. v.spread.logged p (k, u) ((v.spread.each p).written k u h);
    covered = λ w m. elim ((v.spread.each p).accounted w (took w m)) [
      | inl (q, there, this) ↦ elim (rw (none_held held refl) at there) [ ]
      | inr covered ↦ covered
    ];
  }
    where
      took : (w : Write) → Memᴰ w c.history → Memᴰ w (c.log p)
      took w m = elim (origin nodes others opts c v p connected at w m) [
        | inl own ↦ own
        | inr on_way ↦ v.spread.taken_logged p w (arrived w on_way)
      ]

-- In a cluster in causal mode whose nodes are all connected and start with clocks not before time
-- zero, after any puts of values with bytes, deletions and reads, with the requests between nodes
-- delivered in any order, again and again or not yet, by clocks in step with them: once every node
-- has taken what was sent to it, no node holds a write back any more, each node has the last write of
-- every key, and any two hold the same store, if a key and a timestamp name one write.
pub causal_converges :
    (nodes : List Peer) (others : Peer → List Peer) (opts : Peer → Options) (now : Peer → ℤ)
    {c : Cluster} (p q : Peer)
    → IsConnected nodes others
    → ((r : Peer) → pos 0 ≤ℤ now r)
    → Reach (start others opts now) c
    → IsDelivered nodes c
    → UniquelyStamped c.history
    → Memᴰ p nodes
    → Memᴰ q nodes
    → (held_of (c.node p).held ≡ [])
      × IsMergeOf (c.node p).store c.history
      × ((c.node p).store ≡ (c.node q).store)
causal_converges nodes others opts now {c} p q connected begun run delivered unique at_p at_q =
    let v =
      Reach-IsTraced nodes others opts connected (start-IsTraced nodes others opts now begun) run in
    let mp = merged nodes others opts c v connected delivered p at_p in
    let mq = merged nodes others opts c v connected delivered q at_q in
    (
      none_held nodes others opts c v connected delivered p at_p _ refl,
      mp,
      IsMergeOf-unique _ _ c.history c.history unique (λ w. ((λ m. m), (λ m. m))) mp mq,
    )
