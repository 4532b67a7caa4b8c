-- ===== src/Process/Check.antt =====
-- cmd/checker/main.go: the process that checks the nodes and exits. Flags are arguments, dialling tells
-- whether an address is accepted, and what the nodes answer is a function of the address in each turn.
use distributed_key_value_st.Prelude.{
  ℕ, zero, suc, String, ◌≡◌, refl, subst, Bool, true, false, not, ◌&&◌, Option, none, some, List,
  [], ◌∷◌, map, All, Memᴰ, if◌then◌else◌, mem-map_inv, mem-map, Bool-cases, inl, inr,
}
use distributed_key_value_st.Prelude.Int.{ℤ, ◌+ℤ◌, ◌<ℤ◌}
use distributed_key_value_st.Prelude.Result.{
  Result, ok, err, not_converged, context_done, logical_overflow, invalid_logical,
  quorum_not_reached,
}
use distributed_key_value_st.Proto.Kv.{GetRequest, GetResponse}
use distributed_key_value_st.Checker.{NamedClient, Poll, Report, wait_for_convergence}
use distributed_key_value_st.Checker.Consistent.{Agree, check_keys-consistent_iff}
use distributed_key_value_st.Checker.Wait.{EndsAt, wait_for_convergence_lem}
use distributed_key_value_st.Process.{parse_peers}

-- `parseList`, which has the body of the node's `parsePeers`.
abbrev pub parse_list : (String → List String) → (String → String) → String → List String
parse_list = parse_peers

-- One turn of the wait: what each node answers, the time after the check, and whether the context is
-- done.
pub record Turn : Type 0 where
  pub rpc : String → GetRequest → Option GetResponse
  pub now : ℤ
  pub cancelled : Bool

-- The clients of the nodes, in a turn.
abbrev pub clients_at : List String → Turn → List NamedClient
clients_at nodes t = map (λ addr. record { address = addr; client = t.rpc addr }) nodes

abbrev pub poll_of : List String → Turn → Poll
poll_of nodes t = record { clients = clients_at nodes t; now = t.now; cancelled = t.cancelled }

-- The keys that are checked, `n` of them, a number that is not negative (the source panics at one that is), from number `i` on; `print` is `fmt.Sprintf("%s%d", ...)`.
pub keys_from : (String → ℕ → String) → String → ℕ → ℕ → List String
keys_from print prefix i zero = []
keys_from print prefix i (suc n) = print prefix i ∷ keys_from print prefix (suc i) n

pub all_dialled : (String → Bool) → List String → Bool
all_dialled dial [] = true
all_dialled dial (addr ∷ nodes) = dial addr && all_dialled dial nodes

-- The exit status after the wait: `log.Fatalf` exits with 1.
status : Report × Result (Unit {0}) → ℕ
status (report, err e) = 1
status (report, ok _) = if not report.consistent then 1 else 0

exit_of : Option (Report × Result (Unit {0})) → Option ℕ
unfolding status
exit_of none = none
exit_of (some r) = some (status r)

-- `main` from the list of nodes on.
check_nodes : (String → Bool) → List String → ℤ → ℤ → List Turn → List String → Option ℕ
unfolding all_dialled exit_of
check_nodes dial keys start settle turns [] = some 1
check_nodes dial keys start settle turns (addr ∷ rest) =
    if not (all_dialled dial (addr ∷ rest))
    then some 1
    else exit_of (wait_for_convergence start keys settle (map (poll_of (addr ∷ rest)) turns))

-- `main`: the exit status; none if the turns are over and the wait has not returned.
pub check_process :
    (String → List String)
    → (String → String)
    → (String → Bool)
    → (String → ℕ → String)
    → String
    → String
    → ℕ
    → ℤ
    → ℤ
    → List Turn
    → Option ℕ
unfolding check_nodes keys_from
check_process split trim dial print raw prefix count start settle turns =
    check_nodes dial (keys_from print prefix 0 count) start settle turns (parse_list split trim raw)

module _ (dial : String → Bool) (keys : List String) (nodes : List String) where
  -- Why the process exits with a status: with 0 after a turn in which all nodes answered, and answered
  -- the same for every key, and with 1 if there are no nodes, or one cannot be dialled, or after a turn
  -- in which they did not.
  pub data Explains (turns : List Turn) : ℕ → Type 0 where
    no_nodes : nodes ≡ [] → Explains turns 1
    not_dialled : all_dialled dial nodes ≡ false → Explains turns 1
    disagreed :
        (t : Turn) → Memᴰ t turns → ¬ All (Agree (clients_at nodes t)) keys → Explains turns 1
    agreed : (t : Turn) → Memᴰ t turns → All (Agree (clients_at nodes t)) keys → Explains turns 0

  status-Explains :
      (deadline : ℤ) (turns : List Turn) (r : Report × Result (Unit {0})) (t : Turn)
      → Memᴰ t turns
      → EndsAt deadline keys r (poll_of nodes t)
      → Explains turns (status r)
  unfolding status
  status-Explains deadline turns (report, ok _) t m (same, all) =
      rw (same, (check_keys-consistent_iff (clients_at nodes t) keys).1 all) (agreed t m all)
  status-Explains deadline turns (report, err not_converged) t m e = disagreed t m e.1
  status-Explains deadline turns (report, err context_done) t m e = disagreed t m e.1
  status-Explains deadline turns (report, err logical_overflow) t m e = disagreed t m e.1
  status-Explains deadline turns (report, err invalid_logical) t m e = disagreed t m e.1
  status-Explains deadline turns (report, err quorum_not_reached) t m e = disagreed t m e.1

  module _ (start settle : ℤ) (turns : List Turn) (late : Turn) (at : Memᴰ late turns)
      (after : start +ℤ settle <ℤ late.now) where
    exit_of-Explains :
        (code : ℕ) × (exit_of (wait_for_convergence start keys settle (map (poll_of nodes) turns))
          ≡ some code)
        × Explains turns code
    unfolding exit_of
    exit_of-Explains =
        let (r, e, (p, m, ends)) =
          wait_for_convergence_lem start keys settle (map (poll_of nodes) turns)
            (poll_of nodes late) (mem-map (poll_of nodes) at) after in
        let (t, from, same) = mem-map_inv (poll_of nodes) turns m in
        (
          status r,
          rw e refl,
          status-Explains (start +ℤ settle) turns r t from
              (subst (EndsAt (start +ℤ settle) keys r) same ends),
        )

check_nodes-Explains :
    (dial : String → Bool) (keys : List String) (start settle : ℤ) (turns : List Turn) (late : Turn)
    (nodes : List String)
    → Memᴰ late turns
    → start +ℤ settle <ℤ late.now
    → (code : ℕ) × (check_nodes dial keys start settle turns nodes ≡ some code)
      × Explains dial keys nodes turns code
unfolding check_nodes
check_nodes-Explains dial keys start settle turns late [] at after = (1, refl, no_nodes refl)
check_nodes-Explains dial keys start settle turns late (addr ∷ rest) at after =
    elim (Bool-cases (all_dialled dial (addr ∷ rest))) [
      | inl all ↦
          let (code, e, why) =
            exit_of-Explains dial keys (addr ∷ rest) start settle turns late at after in
          (code, rw all e, why)
      | inr some_not ↦ (1, rw some_not refl, not_dialled some_not)
    ]

-- The checker exits, at the latest in the first turn whose check ends after the deadline. Its status is 0
-- only after a turn in which all nodes answered, and answered the same for every key; it is 1 only if
-- there are no nodes, or one cannot be dialled, or after a turn in which they did not.
pub check_process_lem :
    (split : String → List String) (trim : String → String) (dial : String → Bool)
    (print : String → ℕ → String) (raw prefix : String) (count : ℕ) (start settle : ℤ)
    (turns : List Turn) (late : Turn)
    → Memᴰ late turns
    → start +ℤ settle <ℤ late.now
    → (code : ℕ) × (check_process split trim dial print raw prefix count start settle turns
        ≡ some code)
      × Explains dial (keys_from print prefix 0 count) (parse_list split trim raw) turns code
unfolding check_process
check_process_lem split trim dial print raw prefix count start settle turns late at after =
    check_nodes-Explains dial (keys_from print prefix 0 count) start settle turns late
      (parse_list split trim raw) at after
