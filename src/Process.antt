-- ===== src/Process.antt =====
-- cmd/node/main.go: how the process builds its node from its flags. `strings.Split` at commas and
-- `strings.TrimSpace` are the parameters `split` and `trim`; `dial` tells whether `grpc.NewClient`
-- accepts an address. The flags are arguments, and printing is not modelled.
pub mod Start
pub mod Serve
pub mod Check
pub mod Benchmark
pub mod Experiment
use distributed_key_value_st.Prelude.{
  String, Bool, true, false, Option, none, some, List, [], ◌∷◌, if◌then◌else◌, ◌==◌, not,
}
use distributed_key_value_st.Prelude.Int.{ℤ}
use distributed_key_value_st.Hlc
use distributed_key_value_st.Store
use distributed_key_value_st.Replication.{Peer, Options, new_handler}
use distributed_key_value_st.Server.{Node, new_node}

unfoldable pub contains : List String → String → Bool
contains [] s = false
contains (v ∷ ss) s = if v == s then true else contains ss s

-- The loop of `parsePeers` over the parts. `parseList` of cmd/checker/main.go has the same body.
keep_parts : (String → String) → List String → List String
keep_parts trim [] = []
keep_parts trim (p ∷ parts) =
    let rest = keep_parts trim parts in if trim p == "" then rest else trim p ∷ rest

pub parse_peers : (String → List String) → (String → String) → String → List String
unfolding keep_parts
parse_peers split trim raw = keep_parts trim (split raw)

-- The peers whose address was accepted; the others are logged and left out.
pub dial_peers : (String → Bool) → List String → List Peer
dial_peers dial [] = []
dial_peers dial (addr ∷ peers) =
    let rest = dial_peers dial peers in if dial addr then addr ∷ rest else rest

abbrev pub valid_modes : List String
valid_modes = "eventual" ∷ "causal" ∷ "strong" ∷ []

-- The node that `main` builds, none where it exits or panics.
unfoldable pub start :
    (String → List String)
    → (String → String)
    → (String → Bool)
    → ℤ
    → String
    → String
    → Options
    → Option Node
unfolding parse_peers dial_peers
start split trim dial now mode peers opts =
    if not (contains valid_modes mode)
    then none
    else elim (new_handler mode (dial_peers dial (parse_peers split trim peers)) opts) [
      | none ↦ none
      | some handler ↦ some (
          new_node mode Store.new (Hlc.new now) (if mode == "causal" then some [] else none)
            handler)
    ]
