-- ===== src/Server/Race/Calls.antt =====
-- Replication calls outside causal mode, one after the other: the clock that they leave, and the writes
-- that they bring to the store.
use mathlib.Core.List.{append-nil}
use distributed_key_value_st.Prelude.{
  ◌≡◌, refl, sym, ap, subst, ◌∙◌, false, Option, none, some, List, [], ◌∷◌, ◌++◌, ◌==◌,
  append_assoc,
}
use distributed_key_value_st.Prelude.Int.{ℤ}
use distributed_key_value_st.Prelude.Result.{Result, ok, err}
use distributed_key_value_st.Hlc
use distributed_key_value_st.Hlc.{Timestamp, Clock}
use distributed_key_value_st.Hlc.Monotone.{receive_unchanged}
use distributed_key_value_st.Store.Converge.{Write, IsMergeOf}
use distributed_key_value_st.Proto.Repl
use distributed_key_value_st.Proto.Repl.{ReplicateRequest}
use distributed_key_value_st.Wire.{from_proto_ts}
use distributed_key_value_st.Server
use distributed_key_value_st.Server.{Node}
use distributed_key_value_st.Server.Direct.{replicate_taken, replicate_refused, replicate_unstamped}
use distributed_key_value_st.Cluster.{accepted}
use distributed_key_value_st.Store.Taken.{apply-IsMergeOf}
use distributed_key_value_st.Server.Race.{Call, clock_after}

-- The calls one after the other, each as a whole.
unfoldable pub serve : Node → List Call → Node
serve n [] = n
serve n ((now, req) ∷ calls) = serve (Server.replicate now n req).0 calls

-- The writes that the calls bring when they come to the clock in this order.
unfoldable pub came : Clock → List Call → List Write
came clk [] = []
came clk ((now, req) ∷ calls) =
    came (clock_after now clk req.timestamp) calls ++ accepted now clk req req.timestamp

unfoldable pub clocks : Clock → List Call → Clock
clocks clk [] = clk
clocks clk ((now, req) ∷ calls) = clocks (clock_after now clk req.timestamp) calls

pub clocks-append :
    (clk : Clock) (calls more : List Call)
    → clocks clk (calls ++ more) ≡ clocks (clocks clk calls) more
unfolding clocks
clocks-append clk [] more = refl
clocks-append clk ((now, req) ∷ calls) more =
    clocks-append (clock_after now clk req.timestamp) calls more

pub came-append :
    (clk : Clock) (calls more : List Call)
    → came clk (calls ++ more) ≡ came (clocks clk calls) more ++ came clk calls
unfolding clocks came
came-append clk [] more = sym (append-nil _)
came-append clk ((now, req) ∷ calls) more =
    ap (λ ws. ws ++ accepted now clk req req.timestamp)
      (came-append (clock_after now clk req.timestamp) calls more)
    ∙ append_assoc (came (clocks (clock_after now clk req.timestamp) calls) more) _ _

-- What one call leaves of a node.
record Called (n m : Node) (clk : Clock) (ws : List Write) : Type 0 where
  same_mode : m.mode ≡ n.mode
  new_clock : m.clock ≡ clk
  merged : (log : List Write) → IsMergeOf n.store log → IsMergeOf m.store (ws ++ log)

module _ (n : Node) (direct : (n.mode == "causal") ≡ false) (now : ℤ) (req : ReplicateRequest) where
  unchanged-Called : (m : Node) → m ≡ n → Called n m n.clock []
  unchanged-Called m same = record {
    same_mode = ap (λ (k : Node). k.mode) same;
    new_clock = ap (λ (k : Node). k.clock) same;
    merged = λ log h. rw same h;
  }

  answered-Called :
      (pts : Repl.HlcTimestamp) (r : Clock × Result Timestamp)
      → req.timestamp ≡ some pts
      → Hlc.receive now (from_proto_ts pts) n.clock ≡ r
      → Called n
          (Server.replicate now n req).0
          (clock_after now n.clock (some pts))
          (accepted now n.clock req (some pts))
  answered-Called pts (clk, ok stamp) e h =
      rw (replicate_taken n direct now req pts clk e stamp h, h)
        (record {
          same_mode = refl;
          new_clock = sym (ap (λ r. r.0) h);
          merged = λ log m. apply-IsMergeOf n.store log req.key _ m;
        })
  answered-Called pts (clk, err x) e h =
      rw (replicate_refused n direct now req pts clk e x h, h)
        (record {
          same_mode = refl;
          new_clock =
              sym (receive_unchanged now n.clock (from_proto_ts pts) h) ∙ sym (ap (λ r. r.0) h);
          merged = λ log m. m;
        })

  replicate-Called :
      (t : Option Repl.HlcTimestamp)
      → req.timestamp ≡ t
      → Called n
          (Server.replicate now n req).0
          (clock_after now n.clock t)
          (accepted now n.clock req t)
  replicate-Called none e = unchanged-Called _ (replicate_unstamped now n req e)
  replicate-Called (some pts) e =
      answered-Called pts (Hlc.receive now (from_proto_ts pts) n.clock) e refl

-- The calls one after the other leave the merge of the writes that they bring.
pub serve-Called :
    (n : Node) (calls : List Call) (log : List Write)
    → (n.mode == "causal") ≡ false
    → IsMergeOf n.store log
    → ((serve n calls).clock ≡ clocks n.clock calls)
      × IsMergeOf (serve n calls).store (came n.clock calls ++ log)
unfolding serve clocks came
serve-Called n [] log direct h = (refl, h)
serve-Called n ((now, req) ∷ calls) log direct h =
    let m = (Server.replicate now n req).0 in
    let c = replicate-Called n direct now req req.timestamp refl in
    let rest =
      serve-Called m calls (accepted now n.clock req req.timestamp ++ log) (rw (c.same_mode) direct)
        (c.merged log h) in
    (
      rest.0 ∙ ap (λ k. clocks k calls) c.new_clock,
      rw (append_assoc) (
          subst
            (λ k.
              IsMergeOf (serve m calls).store
                (came k calls ++ (accepted now n.clock req req.timestamp ++ log)))
            c.new_clock rest.1),
    )
