-- ===== src/Replication.antt =====
-- internal/replication/replication.go: what a node does with its peers after, or before, a local
-- write. The peers are addresses; what a call of `Replicate` at a peer comes back with is the
-- argument `call`, since the RPC is gRPC's. A goroutine that is started and not waited for is an
-- element of the outcome's `sent`. The handlers' fields Store, HLC and Buffer are never read and have
-- no counterpart.
pub mod Outcomes
pub mod Quorum
use text.Mathlib.Text.{starts_with}
use distributed_key_value_st.Prelude.{
  ℕ, suc, ◌+◌, ◌-◌, ◌/◌, String, Bool, true, false, not, ◌&&◌, Option, none, some, List, [], ◌∷◌,
  map, length, ltb, leb, if◌then◌else◌, ◌==◌,
}
use distributed_key_value_st.Prelude.Int.{ℤ, pos, ltb_ℤ, ◌+ℤ◌}
use distributed_key_value_st.Prelude.Result.{Result, ok, err, quorum_not_reached}
use distributed_key_value_st.Store.{Value, Dependency}
use distributed_key_value_st.Proto.Repl
use distributed_key_value_st.Proto.Repl.{ReplicateRequest, ReplicateResponse}

pub record Options : Type 0 where
  pub delay_prefix : String
  pub delay : ℤ
  pub peer_delay : ℤ

-- The duration that `sleepBeforeReplicate` sleeps for.
unfoldable pub sleep_before_replicate : Options → String → ℤ
sleep_before_replicate opts key =
    let d = if ltb_ℤ (pos 0) opts.peer_delay then pos 0 +ℤ opts.peer_delay else pos 0 in
    let d' =
      if ltb_ℤ (pos 0) opts.delay
        && (not (opts.delay_prefix == "") && starts_with key opts.delay_prefix)
      then d +ℤ opts.delay
      else d in
    if ltb_ℤ (pos 0) d' then d' else pos 0

dependency_message : Dependency → Option Repl.Dependency
dependency_message dep = some (record {
  key = dep.key;
  min_ts = some (record { wall_time = dep.min_ts.wall_time; logical = dep.min_ts.logical });
})

unfoldable pub build_replicate_request : String → Value → List Dependency → ReplicateRequest
unfolding dependency_message
build_replicate_request key val deps = record {
  key = key;
  value = val.payload;
  timestamp =
      some (record { wall_time = val.timestamp.wall_time; logical = val.timestamp.logical });
  deps = map dependency_message deps;
}

abbrev pub Peer : Type 0
Peer = String

-- A call of `Replicate`: an error, no response, or a response.
pub data Reply : Type 0 where
  failed : Reply
  empty_reply : Reply
  answered : ReplicateResponse → Reply

-- `err == nil && resp != nil && resp.Success`
unfoldable pub is_ack : Reply → Bool
is_ack failed = false
is_ack empty_reply = false
is_ack (answered resp) = resp.success

-- A request on its way to a peer, after a delay.
pub record Send : Type 0 where
  pub peer : Peer
  pub delay : ℤ
  pub request : ReplicateRequest

pub record Outcome : Type 0 where
  pub sent : List Send
  pub result : Result (Unit {0})

pub data Handler : Type 0 where
  eventual : List Peer → Options → Handler
  causal : List Peer → Options → Handler
  strong : List Peer → ℕ → Options → Handler

-- One send to each peer.
broadcast : List Peer → Options → String → ReplicateRequest → List Send
broadcast peers opts key req =
    map (λ p. record { peer = p; delay = sleep_before_replicate opts key; request = req }) peers

-- The acknowledgements among the peers' replies, one for each peer; the reply is a function of the
-- peer's address, so two entries of one address answer alike.
unfoldable pub count_acks : (Peer → ReplicateRequest → Reply) → ReplicateRequest → List Peer → ℕ
count_acks call req [] = 0
count_acks call req (p ∷ peers) = (if is_ack (call p req) then 1 else 0) + count_acks call req peers

unfoldable pub eventual_on_write : List Peer → Options → String → Value → Outcome
unfolding broadcast
eventual_on_write peers opts key val = record {
  sent = broadcast peers opts key (build_replicate_request key val []);
  result = ok tt;
}

unfoldable pub causal_on_write : List Peer → Options → String → Value → Outcome
unfolding broadcast
causal_on_write peers opts key val = record {
  sent = broadcast peers opts key (build_replicate_request key val val.deps);
  result = ok tt;
}

-- `remoteNeeded` is `Quorum - 1`, and below zero it is not positive either way.
unfoldable pub strong_on_write :
    (Peer → ReplicateRequest → Reply) → List Peer → ℕ → Options → String → Value → Outcome
unfolding broadcast
strong_on_write call [] quorum opts key val = record { sent = []; result = ok tt }
strong_on_write call (p ∷ peers) quorum opts key val =
    let req = build_replicate_request key val [] in
    let remote_needed = quorum - 1 in
    if leb remote_needed 0 then record { sent = []; result = ok tt } else record {
      sent = broadcast (p ∷ peers) opts key req;
      result =
          if ltb (count_acks call req (p ∷ peers)) remote_needed
          then err quorum_not_reached
          else ok tt;
    }

unfoldable pub on_write : (Peer → ReplicateRequest → Reply) → Handler → String → Value → Outcome
on_write call (eventual peers opts) = eventual_on_write peers opts
on_write call (causal peers opts) = causal_on_write peers opts
on_write call (strong peers quorum opts) = strong_on_write call peers quorum opts

-- `none` is the panic on an invalid mode.
unfoldable pub new_handler : String → List Peer → Options → Option Handler
new_handler mode peers opts =
    if mode == "eventual"
    then some (eventual peers opts)
    else if mode == "causal"
    then some (causal peers opts)
    else if mode == "strong"
    then some (strong peers ((length peers + 1) / 2 + 1) opts)
    else none
