-- ===== src/Tests/Starts.antt =====
-- cmd/node: processes that start.
use distributed_key_value_st.Prelude.{Bool, String, ◌≡◌, inr, refl, inl, true, some, List, [], ◌∷◌}
use distributed_key_value_st.Prelude.Int.{pos}
use distributed_key_value_st.Hlc
use distributed_key_value_st.Store
use distributed_key_value_st.Replication.{Reply, Options, causal, new_handler}
use distributed_key_value_st.Server.{Node, new_node}
use distributed_key_value_st.Process.{start, contains}
use distributed_key_value_st.Process.Serve.{
  Event, IsLife, connections, node_process, node_process_lem, serve_events,
}

abbrev no_delay : Options
no_delay = record { delay_prefix = ""; delay = pos 0; peer_delay = pos 0 }

-- The flag is one address.
abbrev split_one : String → List String
split_one raw = raw ∷ []

abbrev trimmed : String → String
trimmed s = s

abbrev accepted : String → Bool
accepted addr = true

abbrev started : Node
started = new_node "causal" Store.new (Hlc.new (pos 5)) (some []) (causal ("b:1" ∷ []) no_delay)

start_causal : start split_one trimmed accepted (pos 5) "causal" "b:1" no_delay ≡ some started
unfolding start contains new_handler
start_causal = refl

abbrev served : List Event
served =
    Event.putting (λ p req. Reply.failed) (pos 20) (record { key = "x"; value = 1 ∷ [] })
    ∷ Event.getting (record { key = "x" })
    ∷ Event.signalled
    ∷ Event.serve_failed
    ∷ []

-- The signal comes first.
status_example :
    (node_process split_one trimmed accepted true (pos 5) "causal" "b:1" no_delay served).status
    ≡ some 0
unfolding node_process start contains new_handler serve_events
status_example = refl

node_process_lem_example :
    IsLife
      (connections split_one trimmed accepted "b:1")
      served
      (node_process split_one trimmed accepted true (pos 5) "causal" "b:1" no_delay served)
node_process_lem_example =
    node_process_lem split_one trimmed accepted (pos 5) "b:1" no_delay served "causal"
      (inr (inl refl))
