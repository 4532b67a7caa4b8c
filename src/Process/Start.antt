-- ===== src/Process/Start.antt =====
-- What node a process starts with.
use distributed_key_value_st.Prelude.{
  String, ◌≡◌, ◌≢◌, ◌⊎◌, inl, inr, refl, sym, subst, true, Bool, none, some, some_inv, List, [],
  ◌∷◌, arith, eq_iff, if◌then◌else◌, Bool-cases, ◌==◌, All,
}
use distributed_key_value_st.Prelude.Int.{ℤ, pos, ◌≤ℤ◌}
use distributed_key_value_st.Hlc
use distributed_key_value_st.Store
use distributed_key_value_st.Replication.{Peer, Options, Handler, new_handler}
use distributed_key_value_st.Server.{Node, new_node}
use distributed_key_value_st.Server.Clients.{IsWired}
use distributed_key_value_st.Server.Invariant.{IsCausalNode}
use distributed_key_value_st.Server.Steps.{new_node-IsCausalNode}
use distributed_key_value_st.Process.{
  contains, keep_parts, parse_peers, dial_peers, valid_modes, start,
}

-- One of the three consistency modes.
abbrev pub IsMode : String → Type 0
IsMode mode = (mode ≡ "eventual") ⊎ (mode ≡ "causal") ⊎ (mode ≡ "strong")

contains-IsMode : (mode : String) → contains valid_modes mode ≡ true → IsMode mode
unfolding contains
contains-IsMode mode h =
    ground (arith, eq_iff "eventual" mode, eq_iff "causal" mode, eq_iff "strong" mode)

-- Every mode that passes the check has a handler: `NewHandler` does not panic.
new_handler-some :
    (mode : String) (peers : List Peer) (opts : Options)
    → IsMode mode
    → (h : Handler) × (new_handler mode peers opts ≡ some h)
unfolding new_handler
new_handler-some mode peers opts (inl e) =
    subst (λ m. (h : Handler) × (new_handler m peers opts ≡ some h)) (sym e) (_, refl)
new_handler-some mode peers opts (inr (inl e)) =
    subst (λ m. (h : Handler) × (new_handler m peers opts ≡ some h)) (sym e) (_, refl)
new_handler-some mode peers opts (inr (inr e)) =
    subst (λ m. (h : Handler) × (new_handler m peers opts ≡ some h)) (sym e) (_, refl)

contains-true : (mode : String) → IsMode mode → contains valid_modes mode ≡ true
unfolding contains
contains-true mode v =
    ground (arith, v, eq_iff "eventual" mode, eq_iff "causal" mode, eq_iff "strong" mode)

module _ (split : String → List String) (trim : String → String) (dial : String → Bool) (now : ℤ)
    (peers : String) (opts : Options) where
  -- A process that is given one of the three modes builds its node, in that mode, with the handler
  -- that `NewHandler` makes for the mode: it neither exits nor panics.
  pub start_lem :
      (mode : String)
      → IsMode mode
      → (n : Node) × (start split trim dial now mode peers opts ≡ some n)
        × (n.mode ≡ mode)
        × IsWired n
  unfolding start new_node
  start_lem mode v =
      let (h, made) =
        new_handler-some mode (dial_peers dial (parse_peers split trim peers)) opts v in
      (
        new_node mode Store.new (Hlc.new now) (if mode == "causal" then some [] else none) h,
        rw (contains-true mode v, made) refl,
        refl,
        (dial_peers dial (parse_peers split trim peers), opts, made),
      )

  -- A causal process, with a clock not before time zero, starts with a node that meets the causal
  -- invariant.
  pub start-IsCausalNode :
      {n : Node}
      → pos 0 ≤ℤ now
      → start split trim dial now "causal" peers opts ≡ some n
      → IsCausalNode n
  unfolding start contains new_handler
  start-IsCausalNode h e = subst IsCausalNode (some_inv e) (new_node-IsCausalNode now _ h)

keep_parts-All :
    (trim : String → String) (parts : List String) → All (λ p. p ≢ "") (keep_parts trim parts)
unfolding keep_parts
keep_parts-All trim [] = tt
keep_parts-All trim (p ∷ parts) = elim (Bool-cases (trim p == "")) [
  | inl e ↦ rw e (keep_parts-All trim parts)
  | inr e ↦ rw e ((λ f. cc ((eq_iff (trim p) "").1 f)), keep_parts-All trim parts)
]

-- The addresses of the peers are never empty, whatever the flag holds.
parse_peers-All :
    (split : String → List String) (trim : String → String) (raw : String)
    → All (λ p. p ≢ "") (parse_peers split trim raw)
unfolding parse_peers
parse_peers-All split trim raw = keep_parts-All trim (split raw)
