-- ===== src/Replication/Outcomes.antt =====
-- What the three handlers send, and when a strong write succeeds.
use distributed_key_value_st.Prelude.{
  ℕ, suc, ◌+◌, ◌*◌, ◌/◌, ◌<◌, true, inl, inr, Bool-cases, String, ◌≡◌, ◌↔◌, refl, sym, ◌∙◌,
  some_inv, some, List, [], ◌∷◌, arith, length,
}
use distributed_key_value_st.Prelude.Result.{ok}
use distributed_key_value_st.Store.{Value}
use distributed_key_value_st.Proto.Repl.{ReplicateRequest, ReplicateResponse}
use distributed_key_value_st.Replication.{
  Peer, Reply, Options, Handler, strong, answered, failed, empty_reply, is_ack,
  build_replicate_request, count_acks, strong_on_write, on_write, new_handler,
}

-- The quorum that `NewHandler` sets.
pub new_handler_strong :
    (peers : List Peer) (opts : Options)
    → new_handler "strong" peers opts ≡ some (strong peers ((length peers + 1) / 2 + 1) opts)
unfolding new_handler
new_handler_strong peers opts = refl

-- The peer said yes: its answer came, with no error, and with success.
pub data Acks (call : Peer → ReplicateRequest → Reply) (req : ReplicateRequest) (p : Peer)
    : Type 0 where
  said_yes :
      (resp : ReplicateResponse)
      → call p req ≡ answered resp
      → resp.success ≡ true
      → Acks call req p

-- `n` of the peers said yes, and the others did not.
pub data Acknowledged (call : Peer → ReplicateRequest → Reply) (req : ReplicateRequest)
    : List Peer → ℕ → Type 0 where
  nobody : Acknowledged call req [] 0
  acked :
      {p : Peer} {peers : List Peer} {n : ℕ}
      → Acks call req p
      → Acknowledged call req peers n
      → Acknowledged call req (p ∷ peers) (suc n)
  unacked :
      {p : Peer} {peers : List Peer} {n : ℕ}
      → ¬ Acks call req p
      → Acknowledged call req peers n
      → Acknowledged call req (p ∷ peers) n

module _ (call : Peer → ReplicateRequest → Reply) (req : ReplicateRequest) where
  is_ack_of : (p : Peer) → Acks call req p → is_ack (call p req) ≡ true
  unfolding is_ack
  is_ack_of p (said_yes resp e good) = rw e good

  is_ack-Acks : (p : Peer) (r : Reply) → call p req ≡ r → is_ack r ≡ true → Acks call req p
  unfolding is_ack
  is_ack-Acks p failed e h = absurd (ground arith)
  is_ack-Acks p empty_reply e h = absurd (ground arith)
  is_ack-Acks p (answered resp) e h = said_yes resp e h

  count_acks_lem :
      {peers : List Peer} {n : ℕ} → Acknowledged call req peers n → count_acks call req peers ≡ n
  unfolding count_acks
  count_acks_lem nobody = refl
  count_acks_lem {peers = p ∷ peers} (acked a rest) =
      rw (is_ack_of p a) (omega (arith, count_acks_lem rest))
  count_acks_lem {peers = p ∷ peers} (unacked a rest) = elim (Bool-cases (is_ack (call p req))) [
    | inl h ↦ absurd (a (is_ack-Acks p (call p req) refl h))
    | inr h ↦ rw h (omega (arith, count_acks_lem rest))
  ]

module _ (call : Peer → ReplicateRequest → Reply) (opts : Options) (key : String)
    (val : Value) where
  abbrev acks : List Peer → ℕ
  acks = count_acks call (build_replicate_request key val [])

  majority_iff :
      (peers : List Peer)
      → ((strong_on_write call peers ((length peers + 1) / 2 + 1) opts key val).result ≡ ok tt)
        ↔ (length peers + 1 < 2 * (acks peers + 1))
  unfolding strong_on_write count_acks
  majority_iff [] = ground arith
  majority_iff (p ∷ peers) = ground arith

  -- The same of the handler that `NewHandler` makes.
  pub handled_iff :
      (peers : List Peer) {h : Handler}
      → new_handler "strong" peers opts ≡ some h
      → ((on_write call h key val).result ≡ ok tt) ↔ (length peers + 1 < 2 * (acks peers + 1))
  unfolding new_handler on_write
  handled_iff peers e =
      rw (← some_inv (sym (new_handler_strong peers opts) ∙ e)) (majority_iff peers)

  -- Under the handler that `NewHandler` makes for strong mode, a write succeeds exactly if a
  -- majority of the nodes, the writer among them, has it: the writer and the peers whose answer came
  -- with success.
  pub strong-ok_iff :
      (peers : List Peer) (n : ℕ) {h : Handler}
      → new_handler "strong" peers opts ≡ some h
      → Acknowledged call (build_replicate_request key val []) peers n
      → ((on_write call h key val).result ≡ ok tt) ↔ (length peers + 1 < 2 * (n + 1))
  strong-ok_iff peers n e said = rw (← count_acks_lem _ _ said) (handled_iff peers e)
