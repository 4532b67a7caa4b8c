-- ===== src/Tests/CausalClusters.antt =====
-- internal/server: a run of a cluster of three nodes in causal mode. "a" puts "x"; "b" takes it, reads it
-- and puts "y"; "c" takes "y" first, and holds it back until "x" comes.
use distributed_key_value_st.Prelude.{
  String, ◌≡◌, ◌≢◌, ◌⊎◌, inl, inr, refl, subst, sym, ap, ◌∙◌, List, [], ◌∷◌, Memᴰ, arith, eq_iff,
  Bool-cases, ◌==◌, if◌then◌else◌, length,
}
use distributed_key_value_st.Prelude.Int.{ℤ, pos}
use distributed_key_value_st.Hlc
use distributed_key_value_st.Hlc.{compare, max_logical}
use distributed_key_value_st.Store.{Value}
use distributed_key_value_st.Store
use distributed_key_value_st.Store.Converge.{Write, IsMergeOf, UniquelyStamped}
use distributed_key_value_st.Buffer.{
  deps_satisfied, version, apply_locked, drain_locked, drain_rounds, round, sweep, visit,
}
use distributed_key_value_st.Buffer
use distributed_key_value_st.Proto.Kv.{PutRequest}
use distributed_key_value_st.Replication.{
  Peer, Send, build_replicate_request, sleep_before_replicate,
}
use distributed_key_value_st.Server.{put_value, snapshot_reads}
use distributed_key_value_st.Server.Invariant.{held_of}
use distributed_key_value_st.Server
use distributed_key_value_st.Server.Receipts.{IsTimely}
use distributed_key_value_st.Cluster.{
  Cluster, sent_write, Reach, Step, after_call, after_delivery, made, accepted,
}
use distributed_key_value_st.Cluster.Quiet.{IsConnected}
use distributed_key_value_st.Cluster.Causal.Runs.{start}
use distributed_key_value_st.Cluster.Causal.Quiet.{IsDelivered, causal_converges}
use distributed_key_value_st.Tests.Nodes.{program, no_delay, unreachable, put_x, at_20, y_value}

abbrev nodes : List Peer
nodes = "a" ∷ "b" ∷ "c" ∷ []

unfoldable but : List Peer → Peer → List Peer
but [] p = []
but (q ∷ qs) p = if q == p then but qs p else q ∷ but qs p

mem-but : (p q : Peer) (qs : List Peer) → Memᴰ q qs → (q ≡ p) ⊎ Memᴰ q (but qs p)
unfolding but
mem-but p q [] m = elim m [ ]
mem-but p q (r ∷ qs) (Memᴰ.tail m) = elim (mem-but p q qs m) [
  | inl same ↦ inl same
  | inr rest ↦
      inr (elim (Bool-cases (r == p)) [ inl e ↦ rw e rest | inr e ↦ rw e (Memᴰ.tail rest) ])
]
mem-but p q (r ∷ qs) (Memᴰ.head h) = elim (Bool-cases (r == p)) [
  | inl e ↦ inl (h ∙ (eq_iff r p).0 e)
  | inr e ↦ inr (rw e (Memᴰ.head h))
]

connected : IsConnected nodes (but nodes)
connected p q m = mem-but p q nodes m

unfoldable computing : Unit {0}
unfolding program Hlc.new sleep_before_replicate but deps_satisfied version Buffer.receive
    drain_locked drain_rounds round apply_locked sweep visit Store.get_version Hlc.after_or_equal
computing = tt

abbrev begun : Cluster
begun = start (but nodes) (λ p. no_delay) (λ p. pos 10)

abbrev putting : Cluster → Peer → ℤ → PutRequest → Cluster
putting c p now req =
    after_call c p (Server.put unreachable now (c.node p) req).0
      (Server.put unreachable now (c.node p) req).1
      (made (Hlc.send now (c.node p).clock).1
        (λ ts. (req.key, put_value req ts (snapshot_reads (c.node p)).0)))

abbrev delivering : Cluster → ℤ → Send → Cluster
delivering c now s =
    after_delivery c s.peer (Server.replicate now (c.node s.peer) s.request).0
      (accepted now (c.node s.peer).clock s.request s.request.timestamp)

abbrev put_y : PutRequest
put_y = record { key = "y"; value = 2 ∷ [] }

abbrev x_to : Peer → Send
x_to p = record {
  peer = p;
  delay = pos 0;
  request = build_replicate_request "x" (put_value put_x at_20 []) [];
}

abbrev y_to : Peer → Send
y_to p = record {
  peer = p;
  delay = pos 0;
  request = build_replicate_request "y" y_value y_value.deps;
}

abbrev x_made : Cluster
x_made = putting begun "a" (pos 20) put_x

abbrev x_at_b : Cluster
x_at_b = delivering x_made (pos 5) (x_to "b")

abbrev x_read : Cluster
x_read = after_delivery x_at_b "b" (Server.get (x_at_b.node "b") (record { key = "x" })).0 []

abbrev y_made : Cluster
y_made = putting x_read "b" (pos 30) put_y

abbrev y_at_a : Cluster
y_at_a = delivering y_made (pos 5) (y_to "a")

abbrev y_at_c : Cluster
y_at_c = delivering y_at_a (pos 5) (y_to "c")

abbrev x_at_c : Cluster
x_at_c = delivering y_at_c (pos 5) (x_to "c")

sent_y : y_made.sent ≡ y_to "a" ∷ y_to "c" ∷ x_to "b" ∷ x_to "c" ∷ []
unfolding computing
sent_y = refl

abbrev x_write : Write
x_write = ("x", put_value put_x at_20 [])

abbrev y_write : Write
y_write = ("y", y_value)

history_y : x_at_c.history ≡ y_write ∷ x_write ∷ []
unfolding computing
history_y = refl

-- "c" holds "y" back before "x" has come.
held_at_c : length (held_of (y_at_c.node "c").held) ≡ 1
unfolding computing
held_at_c = refl

taken_a : x_at_c.taken "a" ≡ y_write ∷ []
unfolding computing
taken_a = refl

taken_b : x_at_c.taken "b" ≡ x_write ∷ []
unfolding computing
taken_b = refl

taken_c : x_at_c.taken "c" ≡ x_write ∷ y_write ∷ []
unfolding computing
taken_c = refl

x_carried : (p : Peer) → sent_write (x_to p) ≡ x_write
unfolding computing
x_carried p = refl

y_carried : (p : Peer) → sent_write (y_to p) ≡ y_write
unfolding computing
y_carried p = refl

-- What was sent to each peer, with the writes that it took.
is_taken :
    (s : Send)
    → Memᴰ s (y_to "a" ∷ y_to "c" ∷ x_to "b" ∷ x_to "c" ∷ [])
    → Memᴰ (sent_write s) (x_at_c.taken s.peer)
is_taken s (Memᴰ.head e) = rw e (rw taken_a (Memᴰ.head (y_carried "a")))
is_taken s (Memᴰ.tail (Memᴰ.head e)) = rw e (rw taken_c (Memᴰ.tail (Memᴰ.head (y_carried "c"))))
is_taken s (Memᴰ.tail (Memᴰ.tail (Memᴰ.head e))) = rw e (rw taken_b (Memᴰ.head (x_carried "b")))
is_taken s (Memᴰ.tail (Memᴰ.tail (Memᴰ.tail (Memᴰ.head e)))) =
    rw e (rw taken_c (Memᴰ.head (x_carried "c")))
is_taken s (Memᴰ.tail (Memᴰ.tail (Memᴰ.tail (Memᴰ.tail m)))) = elim m [ ]

delivered : IsDelivered nodes x_at_c
delivered s m at = is_taken s (subst (λ ss. Memᴰ s ss) sent_y m)

keys_differ : ◌≢◌ {A = String} "x" "y"
keys_differ e = cc ((eq_iff "x" "y").1 e)

unique_two : UniquelyStamped (y_write ∷ x_write ∷ [])
unique_two w u (Memᴰ.head e) (Memᴰ.head f) k t = e ∙ sym f
unique_two w u (Memᴰ.head e) (Memᴰ.tail (Memᴰ.head f)) k t =
    absurd (keys_differ (sym (ap (λ (r : Write). r.0) f) ∙ sym k ∙ ap (λ (r : Write). r.0) e))
unique_two w u (Memᴰ.tail (Memᴰ.head e)) (Memᴰ.head f) k t =
    absurd (keys_differ (sym (ap (λ (r : Write). r.0) e) ∙ k ∙ ap (λ (r : Write). r.0) f))
unique_two w u (Memᴰ.tail (Memᴰ.head e)) (Memᴰ.tail (Memᴰ.head f)) k t = e ∙ sym f
unique_two w u (Memᴰ.tail (Memᴰ.tail m)) n k t = elim m [ ]
unique_two w u (Memᴰ.head e) (Memᴰ.tail (Memᴰ.tail n)) k t = elim n [ ]
unique_two w u (Memᴰ.tail (Memᴰ.head e)) (Memᴰ.tail (Memᴰ.tail n)) k t = elim n [ ]

unique : UniquelyStamped x_at_c.history
unique = subst UniquelyStamped (sym history_y) unique_two

x-IsTimely_b : IsTimely (pos 5) (x_made.node "b") (x_to "b").request.timestamp
unfolding computing
x-IsTimely_b = (ground arith, ground arith)

y-IsTimely_a : IsTimely (pos 5) (y_made.node "a") (y_to "a").request.timestamp
unfolding computing
y-IsTimely_a = (ground arith, ground arith)

y-IsTimely_c : IsTimely (pos 5) (y_at_a.node "c") (y_to "c").request.timestamp
unfolding computing
y-IsTimely_c = (ground arith, ground arith)

x-IsTimely_c : IsTimely (pos 5) (y_at_c.node "c") (x_to "c").request.timestamp
unfolding computing
x-IsTimely_c = (ground arith, ground arith)

x_sent : (p : Peer) → Memᴰ (x_to p) (x_to "b" ∷ x_to "c" ∷ []) → Memᴰ (x_to p) x_made.sent
unfolding computing
x_sent p m = m

on_way : (s : Send) → Memᴰ s (y_to "a" ∷ y_to "c" ∷ x_to "b" ∷ x_to "c" ∷ []) → Memᴰ s y_made.sent
on_way s m = subst (λ ss. Memᴰ s ss) (sym sent_y) m

steps : Reach begun y_made
steps =
    Reach.next
      (Reach.next
        (Reach.next (Reach.next Reach.here (Step.putting unreachable "a" (pos 20) put_x (λ e. cc)))
          (Step.delivering (pos 5) (x_to "b") (x_sent "b" (Memᴰ.head refl)) x-IsTimely_b))
        (Step.getting "b" (record { key = "x" })))
      (Step.putting unreachable "b" (pos 30) put_y (λ e. cc))

all_steps : Reach begun x_at_c
all_steps =
    Reach.next
      (Reach.next
        (Reach.next steps
          (Step.delivering (pos 5) (y_to "a") (on_way (y_to "a") (Memᴰ.head refl)) y-IsTimely_a))
        (Step.delivering (pos 5) (y_to "c") (on_way (y_to "c") (Memᴰ.tail (Memᴰ.head refl)))
          y-IsTimely_c))
      (Step.delivering (pos 5) (x_to "c")
        (on_way (x_to "c") (Memᴰ.tail (Memᴰ.tail (Memᴰ.tail (Memᴰ.head refl))))) x-IsTimely_c)

causal_converges_example :
    (held_of (x_at_c.node "c").held ≡ [])
    × IsMergeOf (x_at_c.node "c").store x_at_c.history
    × ((x_at_c.node "c").store ≡ (x_at_c.node "a").store)
causal_converges_example =
    causal_converges nodes (but nodes) (λ p. no_delay) (λ p. pos 10) "c" "a" connected
      (λ r. omega arith) all_steps delivered unique (Memᴰ.tail (Memᴰ.tail (Memᴰ.head refl)))
      (Memᴰ.head refl)
