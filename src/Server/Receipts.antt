-- ===== src/Server/Receipts.antt =====
-- A receipt of a causal node keeps the invariant, if the clock is in step with it.
use distributed_key_value_st.Prelude.{
  String, ◌≡◌, ◌⊎◌, inl, inr, refl, sym, ap, subst, ◌∙◌, Bool, true, Option, none, some, List, [],
  ◌∷◌, arith, All, ◌==◌,
}
use distributed_key_value_st.Prelude.Int.{ℤ}
use distributed_key_value_st.Prelude.Result.{Error, Result, ok, err}
use distributed_key_value_st.Hlc
use distributed_key_value_st.Hlc.{Timestamp, Clock, reading, zero_ts}
use distributed_key_value_st.Hlc.Order.{NotLater, NotLater-trans, NotLater_of_Earlier}
use distributed_key_value_st.Hlc.Monotone.{
  receive-later, receive-reading, receive_unchanged, receive-later_message_iff,
}
use distributed_key_value_st.Hlc.Tie.{InStep}
use distributed_key_value_st.Store.{Value}
use distributed_key_value_st.Buffer
use distributed_key_value_st.Buffer.{Buffer, PendingWrite, version, deps_satisfied}
use distributed_key_value_st.Buffer.Causal.{
  Grows, deps_satisfied-Grows, zero-NotLater-version, receive-IsValid, IsValid, HoldsStamped,
}
use distributed_key_value_st.Wire.{replicated_value, from_proto_ts}
use distributed_key_value_st.Proto.Repl
use distributed_key_value_st.Proto.Repl.{ReplicateRequest, ReplicateResponse}
use distributed_key_value_st.Server.Direct.{replicate_unstamped}
use distributed_key_value_st.Server.{Node, replicate, replicate_received}
use distributed_key_value_st.Server.Intake.{receive-Grows, receive-IsSeen, receive_bounded}
use distributed_key_value_st.Server.Invariant.{IsCausalNode, IsSeen, All-IsSeen, reads_of, held_of}

seen-stamped : (ts : Timestamp) (ps : List PendingWrite) → All (IsSeen ts) ps → All HoldsStamped ps
seen-stamped ts [] h = tt
seen-stamped ts (p ∷ ps) h = (h.0.0, seen-stamped ts ps h.1)

module _ (now : ℤ) (n : Node) (req : ReplicateRequest) (pts : Repl.HlcTimestamp) where
  abbrev msg : Timestamp
  msg = from_proto_ts pts

  abbrev val : Value
  val = replicated_value req msg

  abbrev received : Buffer → Buffer × Bool
  received b = Buffer.receive b req.key val

  -- The node after a receipt that its clock, now `clk`, accepts.
  abbrev taken : List PendingWrite → Clock → Node
  taken held clk = record n {
    clock = clk;
    store = (received (record { store = n.store; held = held })).0.store;
    held = some (received (record { store = n.store; held = held })).0.held;
  }

  accepted :
      (held : List PendingWrite) (clk : Clock) (stamp : Timestamp)
      → (n.mode == "causal") ≡ true
      → n.held ≡ some held
      → (replicate_received (record n { clock = clk }) req msg (ok stamp)).0 ≡ taken held clk
  unfolding replicate_received
  accepted held clk stamp m h = rw (m, h)

  -- The handler after the clock's answer.
  answered_node : Clock × Result Timestamp → Node
  answered_node r = (replicate_received (record n { clock = r.0 }) req msg r.1).0

  replicate-answered :
      req.timestamp ≡ some pts
      → (replicate now n req).0 ≡ answered_node (Hlc.receive now msg n.clock)
  unfolding replicate answered_node
  replicate-answered t = ground arith

  -- A request that the clock accepts goes to the buffer.
  pub replicate_buffered :
      (held : List PendingWrite) {clk : Clock} (stamp : Timestamp)
      → (n.mode == "causal") ≡ true
      → n.held ≡ some held
      → req.timestamp ≡ some pts
      → Hlc.receive now msg n.clock ≡ (clk, ok stamp)
      → (replicate now n req).0 ≡ taken held clk
  unfolding answered_node
  replicate_buffered held {clk} stamp m h t e =
      replicate-answered t ∙ ap answered_node e ∙ accepted held clk stamp m h

  -- One that it refuses changes nothing.
  pub replicate_unbuffered :
      {clk : Clock} (x : Error)
      → req.timestamp ≡ some pts
      → Hlc.receive now msg n.clock ≡ (clk, err x)
      → (replicate now n req).0 ≡ n
  unfolding answered_node replicate_received
  replicate_unbuffered x t e =
      replicate-answered t
      ∙ ap answered_node e
      ∙ ap (λ c. record n { clock = c }) (receive_unchanged now n.clock msg e)

  -- What `Replicate` leaves, by the clock's answer: the node as it was, or after the receipt.
  pub replicate_cases :
      (held : List PendingWrite) (r : Clock × Result Timestamp)
      → (n.mode == "causal") ≡ true
      → n.held ≡ some held
      → req.timestamp ≡ some pts
      → Hlc.receive now msg n.clock ≡ r
      → ((replicate now n req).0 ≡ n)
        ⊎ ((stamp : Timestamp) × (r.1 ≡ ok stamp) × ((replicate now n req).0 ≡ taken held r.0))
  replicate_cases held (clk, ok stamp) m h t e =
      inr (stamp, refl, replicate_buffered held stamp m h t e)
  replicate_cases held (clk, err x) m h t e = inl (replicate_unbuffered x t e)

  module _ (v : IsCausalNode n) (stamped : NotLater zero_ts msg) (in_step : InStep now msg n.clock)
      (clk : Clock) (stamp : Timestamp) (e : Hlc.receive now msg n.clock ≡ (clk, ok stamp)) where
    abbrev held : List PendingWrite
    held = v.buffered.0

    abbrev before : Buffer
    before = record { store = n.store; held = held }

    pub later : NotLater (reading n.clock) (reading clk)
    later =
        rw (receive-reading now n.clock msg e)
          (NotLater_of_Earlier (reading n.clock) stamp (receive-later now n.clock msg e).0)

    msg_seen : NotLater msg (reading clk)
    msg_seen =
        rw (receive-reading now n.clock msg e)
          (NotLater_of_Earlier msg stamp ((receive-later_message_iff now n.clock msg e).1 in_step))

    held-IsSeen : All (IsSeen (reading clk)) held
    held-IsSeen =
        All-IsSeen (reading n.clock) (reading clk) held later
          (subst (λ h. All (IsSeen (reading n.clock)) (held_of h)) v.buffered.1 v.seen)

    bounded : (k : String) → NotLater (version n.store k) (reading clk)
    bounded k =
        NotLater-trans (version n.store k) (reading n.clock) (reading clk) (v.bounded k) later

    positive : NotLater zero_ts (reading clk)
    positive =
        NotLater-trans zero_ts (version n.store "") (reading clk)
          (zero-NotLater-version n.store "" v.causal) (bounded "")

    this-IsSeen : IsSeen (reading clk) (record { key = req.key; val = val })
    unfolding replicated_value
    this-IsSeen = (stamped, msg_seen)

    IsValid-after : IsValid (received before).0
    IsValid-after =
        receive-IsValid before req.key val
          (record { causal = v.causal; held_stamped = seen-stamped (reading clk) held held-IsSeen })
          this-IsSeen.0

    pub taken-Grows : Grows n.store (taken held clk).store
    taken-Grows = receive-Grows before req.key val IsValid-after.causal

    taken-IsCausalNode : IsCausalNode (taken held clk)
    taken-IsCausalNode = record {
      in_mode = v.in_mode;
      buffered = ((received before).0.held, refl);
      causal = IsValid-after.causal;
      bounded =
          receive_bounded before req.key val (reading clk) positive bounded held-IsSeen this-IsSeen;
      tracked =
          deps_satisfied-Grows n.store (received before).0.store (reads_of n.tracker) taken-Grows
            v.tracked;
      seen =
          receive-IsSeen before req.key val (reading clk) positive bounded held-IsSeen this-IsSeen;
    }

  -- A receipt keeps the invariant, if the request's timestamp is not before the zero timestamp and the
  -- clock is in step with it.
  replicate-some-IsCausalNode :
      IsCausalNode n
      → req.timestamp ≡ some pts
      → NotLater zero_ts msg
      → InStep now msg n.clock
      → IsCausalNode (replicate now n req).0
  replicate-some-IsCausalNode v t stamped in_step =
      elim (replicate_cases v.buffered.0 (Hlc.receive now msg n.clock) v.in_mode v.buffered.1 t
        refl) [
          | inl same ↦ subst IsCausalNode (sym same) v
          | inr (stamp, good, e) ↦ subst IsCausalNode (sym e) (
              taken-IsCausalNode v stamped in_step (Hlc.receive now msg n.clock).0 stamp
                (λ i. ((Hlc.receive now msg n.clock).0, good i)))
        ]

-- The request's timestamp, if it has one, is not before the zero timestamp, and the node's clock is in
-- step with it.
abbrev pub IsTimely : ℤ → Node → Option Repl.HlcTimestamp → Type 0
IsTimely now n none = Unit {0}
IsTimely now n (some pts) =
    NotLater zero_ts (from_proto_ts pts) × InStep now (from_proto_ts pts) n.clock

pub replicate-IsCausalNode :
    (now : ℤ) (n : Node) (req : ReplicateRequest)
    → IsCausalNode n
    → IsTimely now n req.timestamp
    → IsCausalNode (replicate now n req).0
replicate-IsCausalNode now n req v timely = go req.timestamp refl
  where
    go : (t : Option Repl.HlcTimestamp) → req.timestamp ≡ t → IsCausalNode (replicate now n req).0
    go none e = subst IsCausalNode (sym (replicate_unstamped now n req e)) v
    go (some pts) e =
        let ok_ts = subst (IsTimely now n) e timely in
        replicate-some-IsCausalNode now n req pts v e ok_ts.0 ok_ts.1
