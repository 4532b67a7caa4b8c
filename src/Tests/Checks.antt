-- ===== src/Tests/Checks.antt =====
-- internal/checker: the tests of checker_test.go, and a wait.
use distributed_key_value_st.Prelude.{
  ℕ, ◌≡◌, ◌↔◌, refl, true, false, Option, none, some, List, [], ◌∷◌, arith, All, Memᴰ,
}
use distributed_key_value_st.Prelude.Int.{pos, ◌+ℤ◌, ◌<ℤ◌}
use distributed_key_value_st.Prelude.Result.{Result}
use distributed_key_value_st.Proto.Kv.{GetRequest, GetResponse}
use distributed_key_value_st.Checker.{
  Report, NamedClient, Poll, check_keys, check_loop, scan, bytes_equal, wait_for_convergence,
}
use distributed_key_value_st.Checker.Consistent.{Agree, check_keys-consistent_iff}
use distributed_key_value_st.Checker.Wait.{EndsAt, wait_for_convergence_lem}

abbrev answering : List ℕ → GetRequest → Option GetResponse
answering bytes req = some (record { value = bytes; timestamp = none; found = true })

abbrev unavailable : GetRequest → Option GetResponse
unavailable req = none

abbrev agreeing : List NamedClient
agreeing =
    record { address = "n1"; client = answering (97 ∷ []) }
    ∷ record { address = "n2"; client = answering (97 ∷ []) }
    ∷ []

abbrev differing : List NamedClient
differing =
    record { address = "n1"; client = answering (97 ∷ []) }
    ∷ record { address = "n2"; client = answering (98 ∷ []) }
    ∷ []

abbrev one_down : List NamedClient
one_down =
    record { address = "n1"; client = answering (97 ∷ []) }
    ∷ record { address = "n2"; client = unavailable }
    ∷ []

-- TestCheckKeysConsistent and TestCheckKeysInconsistent, and a node that does not answer.
verdicts :
    ((check_keys agreeing ("k" ∷ [])).consistent ≡ true)
    × ((check_keys differing ("k" ∷ [])).consistent ≡ false)
    × ((check_keys one_down ("k" ∷ [])).consistent ≡ false)
unfolding check_keys check_loop scan bytes_equal
verdicts = (refl, refl, refl)

check_keys-consistent_iff_example :
    ((check_keys agreeing ("k" ∷ [])).consistent ≡ true) ↔ All (Agree agreeing) ("k" ∷ [])
check_keys-consistent_iff_example = check_keys-consistent_iff agreeing ("k" ∷ [])

abbrev first_turn : Poll
first_turn = record { clients = differing; now = pos 1; cancelled = false }

abbrev late_turn : Poll
late_turn = record { clients = agreeing; now = pos 9; cancelled = false }

late : pos 0 +ℤ pos 3 <ℤ pos 9
unfolding ◌+ℤ◌
late = omega arith

wait_for_convergence_lem_example :
    (r : Report × Result (Unit {0})) × (wait_for_convergence
        (pos 0)
        ("k" ∷ [])
        (pos 3)
        (first_turn ∷ late_turn ∷ [])
      ≡ some r)
    × ((p : Poll) × Memᴰ p (first_turn ∷ late_turn ∷ []) × EndsAt (pos 0 +ℤ pos 3) ("k" ∷ []) r p)
wait_for_convergence_lem_example =
    wait_for_convergence_lem (pos 0) ("k" ∷ []) (pos 3) (first_turn ∷ late_turn ∷ []) late_turn
      (Memᴰ.tail (Memᴰ.head refl)) late
