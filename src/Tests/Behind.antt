-- ===== src/Tests/Behind.antt =====
-- internal/server: a held write at a causal node, and a put to the key that it waits for.
use distributed_key_value_st.Prelude.{
  ◌≡◌, refl, inl, true, List, [], ◌∷◌, Memᴰ, arith, subst, sym, ap,
}
use distributed_key_value_st.Prelude.Int.{pos}
use distributed_key_value_st.Prelude.Result.{ok}
use distributed_key_value_st.Hlc
use distributed_key_value_st.Hlc.{Timestamp, after_or_equal}
use distributed_key_value_st.Store
use distributed_key_value_st.Store.{Dependency}
use distributed_key_value_st.Buffer
use distributed_key_value_st.Buffer.{PendingWrite, deps_satisfied, version}
use distributed_key_value_st.Proto.Repl.{ReplicateRequest}
use distributed_key_value_st.Replication.{causal, build_replicate_request}
use distributed_key_value_st.Server.{Node, put, replicate}
use distributed_key_value_st.Server.Invariant.{IsCausalNode, held_of}
use distributed_key_value_st.Server.Receipts.{IsTimely}
use distributed_key_value_st.Server.Steps.{Reach-IsCausalNode, new_node-IsCausalNode}
use distributed_key_value_st.Server.Steps
use distributed_key_value_st.Server.Behind.{IsMetBy, put_held}
use distributed_key_value_st.Tests.Nodes.{
  program, no_delay, unreachable, put_x, causal_start, y_value,
}

abbrev y_request : ReplicateRequest
y_request = build_replicate_request "y" y_value y_value.deps

abbrev holding : Node
holding = (replicate (pos 5) causal_start y_request).0

abbrev held_y : PendingWrite
held_y = record { key = "y"; val = y_value }

y_held : held_of holding.held ≡ held_y ∷ []
unfolding program Hlc.new deps_satisfied version Store.get_version Buffer.receive after_or_equal
y_held = refl

timely : IsTimely (pos 5) causal_start y_request.timestamp
unfolding program Hlc.new
timely = (ground arith, ground arith)

holding-IsCausalNode : IsCausalNode holding
holding-IsCausalNode =
    Reach-IsCausalNode (new_node-IsCausalNode (pos 10) (causal ("b" ∷ []) no_delay) (omega arith))
      (Steps.next Steps.here (Steps.replicating (pos 5) y_request timely))

stamped :
    Hlc.send (pos 40) holding.clock
    ≡ (record { l = pos 40; c = pos 0 }, ok (record { wall_time = pos 40; logical = pos 0 }))
unfolding program Hlc.new
stamped = refl

handled : holding.handler ≡ causal ("b" ∷ []) no_delay
unfolding program Hlc.new
handled = refl

met :
    (dep : Dependency)
    → Memᴰ dep held_y.val.deps
    → IsMetBy holding.store "x" held_y.val.timestamp dep
met dep (Memᴰ.head e) = inl (ap (λ (d : Dependency). d.key) e, rw e (ground arith))
met dep (Memᴰ.tail m) = elim m [ ]

put_held_example :
    (deps_satisfied (put unreachable (pos 40) holding put_x).0.store y_value.deps ≡ true)
    × Memᴰ held_y (held_of (put unreachable (pos 40) holding put_x).0.held)
put_held_example =
    put_held unreachable holding ("b" ∷ []) no_delay (pos 40) put_x held_y holding-IsCausalNode
      handled stamped
      (subst (λ (hs : List PendingWrite). Memᴰ held_y hs) (sym y_held) (Memᴰ.head refl)) met
