-- ===== src/Tests/Quorums.antt =====
-- internal/replication: the tests of replication_test.go, and two quorums of a cluster of three.
use distributed_key_value_st.Prelude.{
  if◌then◌else◌, ◌==◌, ◌*◌, ◌<◌, ◌≡◌, ◌↔◌, refl, true, false, List, [], ◌∷◌, arith, Memᴰ,
}
use distributed_key_value_st.Prelude.Int.{pos, ◌+ℤ◌}
use distributed_key_value_st.Prelude.Result.{ok, err, quorum_not_reached}
use distributed_key_value_st.Store.{Value}
use distributed_key_value_st.Proto.Repl.{ReplicateRequest}
use distributed_key_value_st.Replication.{
  Peer, Reply, Options, strong, answered, failed, is_ack, build_replicate_request, count_acks,
  strong_on_write, on_write, sleep_before_replicate,
}
use distributed_key_value_st.Replication.Outcomes.{
  Acks, said_yes, Acknowledged, nobody, acked, unacked, new_handler_strong, strong-ok_iff,
}
use distributed_key_value_st.Replication.Quorum.{Rearranges, holds, quorums_intersect}

abbrev no_delay : Options
no_delay = record { delay_prefix = ""; delay = pos 0; peer_delay = pos 0 }

abbrev v_value : Value
v_value = record {
  payload = 118 ∷ [];
  timestamp = record { wall_time = pos 1; logical = pos 0 };
  deps = [];
  deleted = false;
}

abbrev all_refuse : Peer → ReplicateRequest → Reply
all_refuse p req = answered (record { success = false })

abbrev all_accept : Peer → ReplicateRequest → Reply
all_accept p req = answered (record { success = true })

abbrev two_peers : List Peer
two_peers = "b" ∷ "c" ∷ []

-- TestStrongHandlerQuorum
quorum_failure :
    (strong_on_write all_refuse two_peers 2 no_delay "k" v_value).result ≡ err quorum_not_reached
unfolding strong_on_write count_acks is_ack
quorum_failure = refl

quorum_success : (strong_on_write all_accept two_peers 2 no_delay "k" v_value).result ≡ ok tt
unfolding strong_on_write count_acks is_ack
quorum_success = refl

-- The delays of a key under the prefix add up.
delays :
    (sleep_before_replicate
        (record { delay_prefix = "chain-a-"; delay = pos 100; peer_delay = pos 5 })
        "chain-a-1"
      ≡ pos 105)
    × (sleep_before_replicate
          (record { delay_prefix = "chain-a-"; delay = pos 100; peer_delay = pos 5 })
          "chain-b-1"
        ≡ pos 5)
unfolding sleep_before_replicate ◌+ℤ◌
delays = (refl, refl)

-- "b" acknowledges; the call of "c" fails.
abbrev one_answer : Peer → ReplicateRequest → Reply
one_answer p req = if p == "b" then answered (record { success = true }) else failed

c_failed : {req : ReplicateRequest} → ¬ Acks one_answer req "c"
c_failed (said_yes resp e good) = ground arith

one_of_two : (req : ReplicateRequest) → Acknowledged one_answer req two_peers 1
one_of_two req = acked (said_yes (record { success = true }) refl refl) (unacked c_failed nobody)

strong-ok_iff_example :
    ((on_write one_answer (strong two_peers 2 no_delay) "k" v_value).result ≡ ok tt) ↔ (3 < 2 * 2)
strong-ok_iff_example =
    strong-ok_iff one_answer no_delay "k" v_value two_peers 1
      (new_handler_strong two_peers no_delay) (one_of_two (build_replicate_request "k" v_value []))

abbrev nodes : List Peer
nodes = "a" ∷ "b" ∷ "c" ∷ []

others_of_a : Rearranges ("a" ∷ "b" ∷ "c" ∷ []) nodes
others_of_a f = refl

others_of_c : Rearranges ("c" ∷ "a" ∷ "b" ∷ []) nodes
others_of_c f = omega arith

strong_accepted : (on_write all_accept (strong two_peers 2 no_delay) "k" v_value).result ≡ ok tt
unfolding on_write strong_on_write count_acks is_ack
strong_accepted = refl

strong_accepted_at_c :
    (on_write all_accept (strong ("a" ∷ "b" ∷ []) 2 no_delay) "k" v_value).result ≡ ok tt
unfolding on_write strong_on_write count_acks is_ack
strong_accepted_at_c = refl

quorums_intersect_example :
    (x : Peer) × Memᴰ x nodes
    × (holds "a" all_accept "k" v_value x ≡ true)
    × (holds "c" all_accept "k" v_value x ≡ true)
quorums_intersect_example =
    quorums_intersect nodes "a" "c" two_peers ("a" ∷ "b" ∷ []) no_delay no_delay all_accept
      all_accept "k" "k" v_value v_value others_of_a others_of_c
      (new_handler_strong two_peers no_delay) (new_handler_strong ("a" ∷ "b" ∷ []) no_delay)
      strong_accepted strong_accepted_at_c
