-- ===== src/Tests/Commits.antt =====
-- internal/server: a strong put at one of three nodes.
use distributed_key_value_st.Prelude.{none, List, [], ◌∷◌, ◌==◌, if◌then◌else◌}
use distributed_key_value_st.Prelude.Int.{pos}
use distributed_key_value_st.Hlc
use distributed_key_value_st.Hlc.{Timestamp}
use distributed_key_value_st.Store
use distributed_key_value_st.Store.{Value}
use distributed_key_value_st.Replication.{build_replicate_request, Peer, strong}
use distributed_key_value_st.Server.Race.{Call}
use distributed_key_value_st.Server
use distributed_key_value_st.Server.{Node, new_node, put_value}
use distributed_key_value_st.Server.Contact.{Fate, lost, answered_at, contact, after_put}
use distributed_key_value_st.Tests.Nodes.{no_delay, put_x, at_20}

abbrev nodes : List Peer
nodes = "a" ∷ "b" ∷ "c" ∷ []

abbrev node : Node
node = new_node "strong" Store.new (Hlc.new (pos 10)) none (strong ("b" ∷ "c" ∷ []) 2 no_delay)

-- The request to "b" is answered, that to "c" is lost.
abbrev fates : Peer → Fate
fates p = if p == "b" then answered_at (pos 5) else lost

abbrev world : Peer → Node
world p = node

abbrev put_at_a : Node
put_at_a = (Server.put (contact world fates) (pos 20) node put_x).0

abbrev later : Peer → Node
later = after_put world fates "a" put_x at_20 put_at_a

-- A later write of "x" by "c", which "b" serves after its first request.
abbrev newer : Value
newer = put_value put_x (record { wall_time = pos 30; logical = pos 0 }) []

abbrev calls : Peer → List Call
calls p = if p == "b" then (pos 6, build_replicate_request "x" newer []) ∷ [] else []
