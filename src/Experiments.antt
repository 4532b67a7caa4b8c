-- ===== src/Experiments.antt =====
-- internal/experiments/experiments.go: the percentile of the staleness samples, with its own sort, and
-- the poll of a replica for a causal violation. The samples are durations in whole milliseconds,
-- which float64 holds exactly; the position that `p` gives is computed in floating point and is the
-- parameter `index`.
pub mod Sorted
pub mod Rank
pub mod Violations
pub mod Trials
pub mod Table
pub mod Causal
use distributed_key_value_st.Prelude.{
  ℕ, zero, suc, ◌-◌, String, Bool, true, false, not, ◌&&◌, ◌||◌, Option, none, some, List, [], ◌∷◌,
  length, if◌then◌else◌,
}
use distributed_key_value_st.Prelude.Int.{ℤ, pos, ltb_ℤ}
use distributed_key_value_st.Proto.Kv.{GetResponse}
use distributed_key_value_st.Checker.{bytes_equal}

-- `if cp[j] < cp[i] { cp[i], cp[j] = cp[j], cp[i] }`, with `x` and `y` for `cp[i]` and `cp[j]`.
exchange : ℤ → ℤ → ℤ × ℤ
exchange x y = if ltb_ℤ y x then (y, x) else (x, y)

-- The inner loop of the sort: `x` is `cp[i]`, the list is `cp[i+1:]`, and an element that is smaller
-- than `cp[i]` changes places with it.
pass : ℤ → List ℤ → ℤ × List ℤ
pass x [] = (x, [])
pass x (y ∷ ys) = let (lo, hi) = exchange x y in let (m, rest) = pass lo ys in (m, hi ∷ rest)

-- The outer loop, on fuel: one turn for each element.
sort_loop : ℕ → List ℤ → List ℤ
sort_loop zero xs = xs
sort_loop (suc n) [] = []
sort_loop (suc n) (x ∷ xs) = let (m, rest) = pass x xs in m ∷ sort_loop n rest

unfoldable pub exchange_sort : List ℤ → List ℤ
unfolding sort_loop pass exchange
exchange_sort xs = sort_loop (length xs) xs

-- `cp[idx]`; none for the panic out of range.
unfoldable pub get_elem? : List ℤ → ℕ → Option ℤ
get_elem? [] k = none
get_elem? (x ∷ xs) zero = some x
get_elem? (x ∷ xs) (suc k) = get_elem? xs k

unfoldable pub percentile : (ℕ → ℕ) → List ℤ → Option ℤ
unfolding exchange_sort
percentile index [] = some (pos 0)
percentile index (x ∷ xs) = get_elem? (exchange_sort (x ∷ xs)) (index (length xs))

-- `resp.Found && string(resp.Value) == string(val)`
unfoldable pub shows : GetResponse → List ℕ → Bool
shows resp val = resp.found && bytes_equal resp.value val

-- One turn of the poll before the deadline: the replica's answers for the second key and then for the
-- first, none for an error.
pub record Look : Type 0 where
  pub reply_b : Option GetResponse
  pub reply_a : Option GetResponse

-- The loop of `pollCausalViolation` over its turns.
unfoldable pub poll_causal_violation : List ℕ → List ℕ → List Look → Bool
poll_causal_violation val_a val_b [] = false
poll_causal_violation val_a val_b (look ∷ looks) =
    let rest = poll_causal_violation val_a val_b looks in
    elim (look.reply_b) [
      | none ↦ false
      | some resp_b ↦ elim (look.reply_a) [
        | none ↦ false
        | some resp_a ↦
            if shows resp_b val_b then (if not (shows resp_a val_a) then true else false) else rest
      ]
    ]
