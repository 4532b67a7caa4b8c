-- ===== src/Tests/Races.antt =====
-- internal/server and internal/hlc: two puts that race, and a clock that falls behind a message.
use distributed_key_value_st.Prelude.{
  ◌≡◌, ◌≢◌, ◌∙◌, ap, sym, subst, refl, false, none, some, List, [], ◌∷◌, ◌++◌, arith, Memᴰ, ◌==◌,
}
use distributed_key_value_st.Prelude.Int.{pos, ◌+ℤ◌, ◌≤ℤ◌}
use distributed_key_value_st.Prelude.Result.{ok}
use distributed_key_value_st.Hlc
use distributed_key_value_st.Hlc.{Timestamp, Clock, max_logical, compare}
use distributed_key_value_st.Hlc.Order.{Earlier, NotLater}
use distributed_key_value_st.Hlc.Tie.{send-NotLater_tied}
use distributed_key_value_st.Store
use distributed_key_value_st.Store.{Store, Value, Dependency, is_stale}
use distributed_key_value_st.Store.Merge.{Covers}
use distributed_key_value_st.Store.Converge.{
  Write, IsMergeOf, UniquelyStamped, apply_all, apply_all-IsMergeOf,
}
use distributed_key_value_st.Proto.Repl
use distributed_key_value_st.Proto.Repl.{ReplicateRequest}
use distributed_key_value_st.Cluster.{accepted}
use distributed_key_value_st.Buffer.Causal.{effective}
use distributed_key_value_st.Proto.Kv.{PutRequest}
use distributed_key_value_st.Replication.{
  eventual, build_replicate_request, on_write, eventual_on_write, causal_on_write, strong_on_write,
  count_acks, is_ack, new_handler,
}
use distributed_key_value_st.Wire.{
  to_proto_ts, from_proto_ts, from_proto_deps, is_empty, replicated_value,
}
use distributed_key_value_st.Server.{
  Node, new_node, put, delete, get, replicate, put_value, write_through, snapshot_reads,
  apply_direct,
}
use distributed_key_value_st.Server.Race.{Racing, Moves, Receipt, Call, clock_after}
use distributed_key_value_st.Server.Race.Overtaken.{put_overtaken}
use distributed_key_value_st.Server.Race.Calls.{came, serve}
use distributed_key_value_st.Server.Race.Serial.{Receipts, at_rest, Receipts-serve}

program : Unit {0}
unfolding put get delete replicate new_node Hlc.send Hlc.receive compare write_through
    snapshot_reads to_proto_ts from_proto_ts eventual_on_write causal_on_write strong_on_write
    count_acks is_ack on_write Store.put Store.assign Store.get Store.delete Store.apply
    Store.apply_delete replicated_value from_proto_deps is_empty ◌+ℤ◌ build_replicate_request
    effective apply_direct new_handler
program = tt

abbrev put_x : PutRequest
put_x = record { key = "x"; value = 1 ∷ [] }

abbrev at_20 : Timestamp
at_20 = record { wall_time = pos 20; logical = pos 0 }

abbrev racing : Racing
racing = record {
  store = Store.new;
  clock = record { l = pos 10; c = pos 0 };
  waiting = [];
  arriving = [];
}

abbrev put_x_again : PutRequest
put_x_again = record { key = "x"; value = 2 ∷ [] }

abbrev at_30 : Timestamp
at_30 = record { wall_time = pos 30; logical = pos 0 }

sent_at_20 : Hlc.send (pos 20) racing.clock ≡ (record { l = pos 20; c = pos 0 }, ok at_20)
unfolding program
sent_at_20 = refl

abbrev x_from : PutRequest → Timestamp → ReplicateRequest
x_from req ts = build_replicate_request "x" (put_value req ts []) []

abbrev pts_30 : Repl.HlcTimestamp
pts_30 = record { wall_time = pos 30; logical = pos 0 }

received_at_30 :
    Hlc.receive (pos 25) (from_proto_ts pts_30) (record { l = pos 20; c = pos 0 })
    ≡ (record { l = pos 30; c = pos 1 }, ok (record { wall_time = pos 30; logical = pos 1 }))
unfolding program
received_at_30 = refl

x_from_key : (x_from put_x_again at_30).key ≡ "x"
unfolding program
x_from_key = refl

x_from_timestamp : (x_from put_x_again at_30).timestamp ≡ some pts_30
unfolding program
x_from_timestamp = refl

at_20-Earlier : Earlier at_20 (from_proto_ts pts_30)
unfolding program
at_20-Earlier = ground arith

put_overtaken_example :
    (m r' : Racing) × Moves racing m
    × Moves m r'
    × Covers (m.store.entries "x") (from_proto_ts pts_30)
    × (r'.store.entries "x" ≡ some (put_value put_x at_20 []))
    × ¬ Covers (r'.store.entries "x") (from_proto_ts pts_30)
put_overtaken_example =
    put_overtaken racing (pos 20) (pos 25) put_x (x_from put_x_again at_30) pts_30 x_from_key
      x_from_timestamp sent_at_20 received_at_30 at_20-Earlier

abbrev quiet_node : Node
quiet_node =
    new_node "eventual" Store.new (record { l = pos 10; c = pos 0 }) none
      (eventual ("b" ∷ []) (record { delay_prefix = ""; delay = pos 0; peer_delay = pos 0 }))

-- Two calls that bring "x", the later write first to the store.
abbrev calls : List Call
calls = (pos 5, x_from put_x at_20) ∷ (pos 6, x_from put_x_again at_30) ∷ []

abbrev w_20 : Write
w_20 = ("x", put_value put_x at_20 [])

abbrev w_30 : Write
w_30 = ("x", put_value put_x_again at_30 [])

abbrev both_received : Racing
both_received = record {
  store = quiet_node.store;
  clock =
      clock_after (pos 6) (clock_after (pos 5) quiet_node.clock (x_from put_x at_20).timestamp)
        (x_from put_x_again at_30).timestamp;
  waiting = [];
  arriving =
      accepted (pos 6) (clock_after (pos 5) quiet_node.clock (x_from put_x at_20).timestamp)
        (x_from put_x_again at_30) (x_from put_x_again at_30).timestamp
      ++ (accepted (pos 5) quiet_node.clock (x_from put_x at_20) (x_from put_x at_20).timestamp
          ++ []);
}

abbrev both_applied : Racing
both_applied = record both_received {
  store = (Store.apply (Store.apply quiet_node.store w_30.0 w_30.1).0 w_20.0 w_20.1).0;
  arriving = [];
}

both_arrive : both_received.arriving ≡ w_30 ∷ w_20 ∷ []
unfolding program
both_arrive = refl

interleaved : Receipts (at_rest quiet_node) calls both_applied
interleaved =
    Receipts.next
      (Receipts.next
        (Receipts.next (Receipts.next Receipts.here (Receipt.receive (pos 5) (x_from put_x at_20)))
          (Receipt.receive (pos 6) (x_from put_x_again at_30)))
        (Receipt.apply w_30 [] (w_20 ∷ []) both_arrive))
      (Receipt.apply w_20 [] [] refl)

came_both : came quiet_node.clock calls ++ [] ≡ w_30 ∷ w_20 ∷ []
unfolding program came
came_both = refl

later_write : at_30 ≢ at_20
later_write e = cc (ap (λ (t : Timestamp). t.wall_time) e)

unique_two : UniquelyStamped (w_30 ∷ w_20 ∷ [])
unique_two w u (Memᴰ.head e) (Memᴰ.head f) k t = e ∙ sym f
unique_two w u (Memᴰ.tail (Memᴰ.head e)) (Memᴰ.tail (Memᴰ.head f)) k t = e ∙ sym f
unique_two w u (Memᴰ.head e) (Memᴰ.tail (Memᴰ.head f)) k t = absurd (
    later_write
      (sym (ap (λ (r : Write). r.1.timestamp) e) ∙ t ∙ ap (λ (r : Write). r.1.timestamp) f))
unique_two w u (Memᴰ.tail (Memᴰ.head e)) (Memᴰ.head f) k t = absurd (
    later_write
      (sym (ap (λ (r : Write). r.1.timestamp) f) ∙ sym t ∙ ap (λ (r : Write). r.1.timestamp) e))
unique_two w u (Memᴰ.tail (Memᴰ.tail m)) n k t = elim m [ ]
unique_two w u (Memᴰ.head e) (Memᴰ.tail (Memᴰ.tail n)) k t = elim n [ ]
unique_two w u (Memᴰ.tail (Memᴰ.head e)) (Memᴰ.tail (Memᴰ.tail n)) k t = elim n [ ]

not_causal : (quiet_node.mode == "causal") ≡ false
unfolding program
not_causal = refl

empty-IsMergeOf : IsMergeOf quiet_node.store []
unfolding program apply_all
empty-IsMergeOf = apply_all-IsMergeOf []

Receipts-serve_example :
    (both_applied.store ≡ (serve quiet_node calls).store)
    × (both_applied.clock ≡ (serve quiet_node calls).clock)
Receipts-serve_example =
    Receipts-serve quiet_node [] not_causal empty-IsMergeOf
      (subst UniquelyStamped (sym came_both) unique_two) interleaved refl

abbrev tied : Timestamp
tied = record { wall_time = pos 900; logical = pos 7 }

tied_receipt :
    Hlc.receive (pos 5) tied (record { l = pos 900; c = pos 2 })
    ≡ (record { l = pos 900; c = pos 3 }, ok (record { wall_time = pos 900; logical = pos 3 }))
unfolding program
tied_receipt = refl

tied_send :
    Hlc.send (pos 6) (record { l = pos 900; c = pos 3 })
    ≡ (record { l = pos 900; c = pos 4 }, ok (record { wall_time = pos 900; logical = pos 4 }))
unfolding program
tied_send = refl

two_above : pos 2 +ℤ pos 2 ≤ℤ pos 7
unfolding program
two_above = omega arith

send-NotLater_tied_example : NotLater (record { wall_time = pos 900; logical = pos 4 }) tied
send-NotLater_tied_example =
    send-NotLater_tied (pos 5) (pos 6) tied (record { l = pos 900; c = pos 2 }) tied_receipt
      tied_send refl (omega arith) (omega arith) two_above
