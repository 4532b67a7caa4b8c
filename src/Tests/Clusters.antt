-- ===== src/Tests/Clusters.antt =====
-- internal/server: a run of a cluster of two nodes.
use distributed_key_value_st.Prelude.{
  ◌≡◌, ◌⊎◌, inl, inr, refl, subst, sym, ◌∙◌, true, false, List, [], ◌∷◌, Memᴰ, arith, eq_iff,
  Bool-cases, ◌==◌, if◌then◌else◌,
}
use distributed_key_value_st.Prelude.Int.{pos}
use distributed_key_value_st.Hlc
use distributed_key_value_st.Hlc.{compare, max_logical}
use distributed_key_value_st.Store.Converge.{IsMergeOf, UniquelyStamped}
use distributed_key_value_st.Replication.{
  Peer, Send, build_replicate_request, sleep_before_replicate,
}
use distributed_key_value_st.Server.{put_value, snapshot_reads}
use distributed_key_value_st.Server
use distributed_key_value_st.Cluster.{
  Cluster, sent_write, Reach, Step, after_call, after_delivery, made, accepted,
}
use distributed_key_value_st.Server.Receipts.{IsTimely}
use distributed_key_value_st.Cluster.Quiet.{start, IsQuiet, IsConnected, quiet_converges}
use distributed_key_value_st.Tests.Nodes.{program, no_delay, unreachable, put_x, at_20}

abbrev nodes : List Peer
nodes = "a" ∷ "b" ∷ []

abbrev others : Peer → List Peer
others p = if p == "a" then "b" ∷ [] else if p == "b" then "a" ∷ [] else nodes

abbrev begun : Cluster
begun = start others (λ p. no_delay) (λ p. pos 10)

abbrev written : Cluster
written =
    after_call begun "a" (Server.put unreachable (pos 20) (begun.node "a") put_x).0
      (Server.put unreachable (pos 20) (begun.node "a") put_x).1
      (made (Hlc.send (pos 20) (begun.node "a").clock).1
        (λ ts. (put_x.key, put_value put_x ts (snapshot_reads (begun.node "a")).0)))

abbrev to_b : Send
to_b = record {
  peer = "b";
  delay = pos 0;
  request = build_replicate_request "x" (put_value put_x at_20 []) [];
}

abbrev taken : Cluster
taken =
    after_delivery written "b" (Server.replicate (pos 5) (written.node "b") to_b.request).0
      (accepted (pos 5) (written.node "b").clock to_b.request to_b.request.timestamp)

sent_to_b : written.sent ≡ to_b ∷ []
unfolding program Hlc.new sleep_before_replicate
sent_to_b = refl

taken_history : taken.history ≡ ("x", put_value put_x at_20 []) ∷ []
unfolding program Hlc.new
taken_history = refl

-- Any two of the nodes, and any other one, are connected.
connected : IsConnected nodes others
connected p q m = go (Bool-cases (p == "a")) (Bool-cases (p == "b")) m
  where
    go :
        ((p == "a") ≡ true) ⊎ ((p == "a") ≡ false)
        → ((p == "b") ≡ true) ⊎ ((p == "b") ≡ false)
        → Memᴰ q nodes
        → (q ≡ p) ⊎ Memᴰ q (others p)
    go (inl same) _ (Memᴰ.head e) = inl (e ∙ sym ((eq_iff p "a").0 same))
    go (inl same) _ (Memᴰ.tail (Memᴰ.head e)) = inr (rw same (Memᴰ.head e))
    go (inl same) _ (Memᴰ.tail (Memᴰ.tail m)) = elim m [ ]
    go (inr ne) (inl same) (Memᴰ.tail (Memᴰ.tail m)) = elim m [ ]
    go (inr ne) (inl same) (Memᴰ.head e) = inr (rw ne (rw same (Memᴰ.head e)))
    go (inr ne) (inl same) (Memᴰ.tail (Memᴰ.head e)) = inl (e ∙ sym ((eq_iff p "b").0 same))
    go (inr ne) (inr other) m = inr (rw ne (rw other m))

b_log : taken.log "b" ≡ ("x", put_value put_x at_20 []) ∷ []
unfolding program Hlc.new
b_log = refl

carried_to_b : sent_write to_b ≡ ("x", put_value put_x at_20 [])
unfolding program
carried_to_b = refl

only : {A : Type 0} {w u : A} → Memᴰ w (u ∷ []) → w ≡ u
only (Memᴰ.head e) = e
only (Memᴰ.tail m) = elim m [ ]

quiet : IsQuiet nodes taken
quiet s m at =
    subst (λ r. Memᴰ (sent_write r) (taken.log r.peer))
      (sym (only (subst (λ ss. Memᴰ s ss) sent_to_b m)))
      (subst (λ ws. Memᴰ (sent_write to_b) ws) (sym b_log) (Memᴰ.head carried_to_b))

unique : UniquelyStamped taken.history
unique w u m n k t =
    only (subst (λ ws. Memᴰ w ws) taken_history m)
    ∙ sym (only (subst (λ ws. Memᴰ u ws) taken_history n))

timely : IsTimely (pos 5) (written.node "b") to_b.request.timestamp
unfolding program Hlc.new
timely = (ground arith, ground arith)

steps : Reach begun taken
steps = Reach.next (Reach.next Reach.here (Step.putting unreachable "a" (pos 20) put_x (λ e. cc))) (
    Step.delivering (pos 5) to_b (subst (λ ss. Memᴰ to_b ss) (sym sent_to_b) (Memᴰ.head refl))
      timely)

quiet_converges_example :
    IsMergeOf (taken.node "a").store taken.history
    × ((taken.node "a").store ≡ (taken.node "b").store)
quiet_converges_example =
    quiet_converges nodes others (λ p. no_delay) (λ p. pos 10) "a" "b" connected steps quiet unique
      (Memᴰ.head refl) (Memᴰ.tail (Memᴰ.head refl))
