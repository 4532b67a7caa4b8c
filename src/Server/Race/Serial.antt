-- ===== src/Server/Race/Serial.antt =====
-- Replication calls outside causal mode that run at the same time, against the same calls one after the
-- other, in the order in which they come to the clock.
use mathlib.Core.List.Memᴰ
use mathlib.Core.List.{append-nil}
use distributed_key_value_st.Prelude.{
  ◌≡◌, ◌⊎◌, inl, inr, refl, sym, ◌∙◌, false, List, [], ◌∷◌, ◌++◌, Memᴰ, ◌==◌, ◌↔◌, mem-middle,
  mem-middle_of, mem-append_right,
}
use distributed_key_value_st.Prelude.Int.{ℤ}
use distributed_key_value_st.Hlc.{Clock}
use distributed_key_value_st.Store.Converge.{
  Write, IsMergeOf, IsMergeOf-unique, UniquelyStamped, SameWrites,
}
use distributed_key_value_st.Proto.Repl.{ReplicateRequest}
use distributed_key_value_st.Server.{Node}
use distributed_key_value_st.Cluster.{accepted}
use distributed_key_value_st.Store.Taken.{apply-IsMergeOf}
use distributed_key_value_st.Server.Race.Calls.{
  serve, came, clocks, clocks-append, came-append, serve-Called,
}
use distributed_key_value_st.Server.Race.{Racing, Call, Receipt, receive, apply}

-- Any order of the steps of calls, with the calls in the order of their first steps.
pub data Receipts (r : Racing) : List Call → Racing → Type 0 where
  here : Receipts r [] r
  next :
      {s t : Racing} {calls more : List Call}
      → Receipts r calls s
      → Receipt s more t
      → Receipts r (calls ++ more) t

-- A node at rest.
abbrev pub at_rest : Node → Racing
at_rest n = record { store = n.store; clock = n.clock; waiting = []; arriving = [] }

-- How far calls at the same time have come: the writes `done` are in the store, the others are to
-- reach it.
record IsUnderWay (clk : Clock) (calls : List Call) (log : List Write) (r : Racing) : Type 0 where
  same_clock : r.clock ≡ clocks clk calls
  done : List Write
  merged : IsMergeOf r.store (done ++ log)
  split : (w : Write) → Memᴰ w (came clk calls) ↔ (Memᴰ w done ⊎ Memᴰ w r.arriving)

module _ (clk : Clock) (calls : List Call) (log : List Write) {r : Racing}
    (v : IsUnderWay clk calls log r) where
  received-IsUnderWay :
      (now : ℤ) (req : ReplicateRequest) (w : Write)
      → Memᴰ w (accepted now r.clock req req.timestamp ++ came clk calls)
        ↔ (Memᴰ w v.done ⊎ Memᴰ w (accepted now r.clock req req.timestamp ++ r.arriving))
  received-IsUnderWay now req w = (
    λ m. elim (Memᴰ.append_cases (accepted now r.clock req req.timestamp) m) [
      | inl new ↦ inr (Memᴰ.append_left _ new)
      | inr old ↦ elim ((v.split w).0 old) [
        | inl stored ↦ inl stored
        | inr on_way ↦ inr (Memᴰ.append_right (accepted now r.clock req req.timestamp) on_way)
      ]
    ],
    λ m. elim m [
      | inl stored ↦ Memᴰ.append_right _ ((v.split w).1 (inl stored))
      | inr rest ↦ elim (Memᴰ.append_cases (accepted now r.clock req req.timestamp) rest) [
        | inl new ↦ Memᴰ.append_left _ new
        | inr on_way ↦ Memᴰ.append_right _ ((v.split w).1 (inr on_way))
      ]
    ],
  )

  applied-IsUnderWay :
      (w : Write) (xs ys : List Write)
      → r.arriving ≡ xs ++ w ∷ ys
      → (u : Write) → Memᴰ u (came clk calls) ↔ (Memᴰ u (w ∷ v.done) ⊎ Memᴰ u (xs ++ ys))
  applied-IsUnderWay w xs ys e u = (
    λ m. elim ((v.split u).0 m) [
      | inl stored ↦ inl (Memᴰ.tail stored)
      | inr on_way ↦ elim (mem-middle w xs ys (rw e at on_way)) [
        | inl this ↦ inl (Memᴰ.head this)
        | inr other ↦ inr other
      ]
    ],
    λ m. elim m [
      | inl (Memᴰ.head this) ↦ (v.split u).1 (inr (rw e (mem-append_right xs (Memᴰ.head this))))
      | inl (Memᴰ.tail stored) ↦ (v.split u).1 (inl stored)
      | inr other ↦ (v.split u).1 (inr (rw e (mem-middle_of w xs ys other)))
    ],
  )

  Receipt-IsUnderWay :
      {s : Racing} {more : List Call} → Receipt r more s → IsUnderWay clk (calls ++ more) log s
  unfolding clocks came
  Receipt-IsUnderWay (receive now req) = record {
    same_clock = rw (v.same_clock, clocks-append clk calls ((now, req) ∷ [])) refl;
    done = v.done;
    merged = v.merged;
    split =
        rw (came-append clk calls ((now, req) ∷ []), ← v.same_clock) (received-IsUnderWay now req);
  }
  Receipt-IsUnderWay (apply w xs ys e) = record {
    same_clock = rw append-nil (v.same_clock);
    done = w ∷ v.done;
    merged = apply-IsMergeOf r.store (v.done ++ log) w.0 w.1 v.merged;
    split = rw append-nil (applied-IsUnderWay w xs ys e);
  }

Receipts-IsUnderWay :
    (n : Node) (log : List Write) {calls : List Call} {r : Racing}
    → IsMergeOf n.store log
    → Receipts (at_rest n) calls r
    → IsUnderWay n.clock calls log r
unfolding clocks came
Receipts-IsUnderWay n log h here = record {
  same_clock = refl;
  done = [];
  merged = h;
  split = λ w. ((λ m. inr m), (λ m. elim m [ inl x ↦ x | inr x ↦ x ]));
}
Receipts-IsUnderWay n log h (next {calls = calls} run step) =
    Receipt-IsUnderWay n.clock calls log (Receipts-IsUnderWay n log h run) step

-- Replication calls at a node outside causal mode that run at the same time, each to the clock and
-- then to the store with others in between: when all that the clock accepted have reached the store,
-- the node's store and clock are what the calls leave one after the other, in the order in which they
-- came to the clock. The store is before the merge of some writes, and among these and those that
-- come a key and a timestamp name one write.
pub Receipts-serve :
    (n : Node) (log : List Write) {calls : List Call} {r : Racing}
    → (n.mode == "causal") ≡ false
    → IsMergeOf n.store log
    → UniquelyStamped (came n.clock calls ++ log)
    → Receipts (at_rest n) calls r
    → r.arriving ≡ []
    → (r.store ≡ (serve n calls).store) × (r.clock ≡ (serve n calls).clock)
Receipts-serve n log {calls} {r} direct merge unique run empty =
    let v = Receipts-IsUnderWay n log merge run in
    let whole = serve-Called n calls log direct merge in
    (
      sym (
          IsMergeOf-unique _ _ (came n.clock calls ++ log) (v.done ++ log) unique (same v) whole.1
            v.merged),
      v.same_clock ∙ sym whole.0,
    )
  where
    same :
        (v : IsUnderWay n.clock calls log r)
        → SameWrites (came n.clock calls ++ log) (v.done ++ log)
    same v w = (
      λ m. elim (Memᴰ.append_cases (came n.clock calls) m) [
        | inr old ↦ Memᴰ.append_right v.done old
        | inl new ↦ elim ((v.split w).0 new) [
          | inl stored ↦ Memᴰ.append_left log stored
          | inr on_way ↦ elim (rw empty at on_way) [ ]
        ]
      ],
      λ m. elim (Memᴰ.append_cases v.done m) [
        | inr old ↦ Memᴰ.append_right _ old
        | inl stored ↦ Memᴰ.append_left log ((v.split w).1 (inl stored))
      ],
    )
