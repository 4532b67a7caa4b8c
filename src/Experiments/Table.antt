-- ===== src/Experiments/Table.antt =====
-- cmd/experiments/main.go: the rows that the two experiments append to the CSV file. `fmt.Sprintf` is a
-- parameter; flags, dialling and printing are left out.
use distributed_key_value_st.Prelude.{
  ℕ, zero, suc, ◌+◌, ◌-◌, ◌≤◌, ◌≡◌, refl, subst, some, some_inv, inl, inr, ◌≢◌, sym, ap, ◌∙◌,
  String, Bool, true, false, List, [], ◌∷◌, ◌++◌, arith, length, length-append, if◌then◌else◌, ◌==◌,
}
use distributed_key_value_st.Prelude.Int.{ℤ}
use distributed_key_value_st.Csv.{Row}
use distributed_key_value_st.Experiments.Trials.{
  StalenessResult, StalenessTrial, CausalChainResult, ChainTrial, Average, measure_staleness,
  measure_causal_chains,
}
use distributed_key_value_st.Experiments.Trials.Counts.{
  count, IsComplete, measure_staleness_lem, measure_causal_chains_lem,
}

true_ne_false : true ≢ false
true_ne_false e = cc

-- `fmt.Sprintf` with "%d", and with "%.2f" of whole milliseconds.
pub record Format : Type 0 where
  pub int : ℕ → String
  pub millis : ℤ → String

-- The last column of a row, and how many rows have a text there.
abbrev pub last_column : Row → String
last_column [] = ""
last_column (c ∷ []) = c
last_column (c ∷ d ∷ cs) = last_column (d ∷ cs)

abbrev pub with_last : String → List Row → ℕ
with_last text [] = 0
with_last text (r ∷ rows) = (if last_column r == text then 1 else 0) + with_last text rows

with_last-append :
    (text : String) (rows more : List Row)
    → with_last text (rows ++ more) ≡ with_last text rows + with_last text more
with_last-append text [] more = omega arith
with_last-append text (r ∷ rows) more = omega (arith, with_last-append text rows more)

module _ (fmt : Format) (mode : String) where
  -- The first loop of `runStaleness`, from trial `i` on, and the second, of `n` turns.
  sample_rows : ℕ → List ℤ → List Row
  sample_rows i [] = []
  sample_rows i (ms ∷ samples) =
      (mode ∷ "staleness" ∷ fmt.int i ∷ fmt.millis ms ∷ "" ∷ []) ∷ sample_rows (suc i) samples

  timeout_rows : ℕ → ℕ → List Row
  timeout_rows i zero = []
  timeout_rows i (suc n) =
      (mode ∷ "staleness" ∷ fmt.int i ∷ "" ∷ "timeout" ∷ []) ∷ timeout_rows (suc i) n

  -- `runStaleness` after an experiment with no error.
  unfoldable pub run_staleness : {F : Type 0} → StalenessResult F → ℕ → List Row
  unfolding sample_rows timeout_rows
  run_staleness res trials =
      sample_rows 0 res.samples_ms
      ++ timeout_rows (length res.samples_ms) (trials - length res.samples_ms)

  -- The loop of `runCausal`, from trial `i` on.
  chain_rows : ℕ → List Bool → List Row
  chain_rows i [] = []
  chain_rows i (violated ∷ flags) =
      (mode ∷ "causal_chain" ∷ fmt.int i ∷ "" ∷ (if violated then "1" else "0") ∷ [])
      ∷ chain_rows (suc i) flags

  unfoldable pub run_causal : CausalChainResult → List Row
  unfolding chain_rows
  run_causal res = chain_rows 0 res.trial_violations

  sample_rows-counts :
      (i : ℕ) (samples : List ℤ)
      → (length (sample_rows i samples) ≡ length samples)
        × (with_last "timeout" (sample_rows i samples) ≡ 0)
  unfolding sample_rows
  sample_rows-counts i [] = (refl, refl)
  sample_rows-counts i (ms ∷ samples) = ground (arith, sample_rows-counts (suc i) samples)

  timeout_rows-counts :
      (i n : ℕ) → (length (timeout_rows i n) ≡ n) × (with_last "timeout" (timeout_rows i n) ≡ n)
  unfolding timeout_rows
  timeout_rows-counts i zero = (refl, refl)
  timeout_rows-counts i (suc n) = ground (arith, timeout_rows-counts (suc i) n)

  complete_rows :
      {F : Type 0} (res : StalenessResult F) (n : ℕ)
      → IsComplete res n
      → (length (run_staleness res n) ≡ n)
        × (with_last "timeout" (run_staleness res n) ≡ res.timeouts)
  unfolding run_staleness
  complete_rows res n (all, sum, visible) =
      let k = length res.samples_ms in
      let s = sample_rows-counts 0 res.samples_ms in
      let t = timeout_rows-counts k (n - k) in
      (
        omega (
          arith,
          s.0,
          t.0,
          sum,
          visible,
          length-append (sample_rows 0 res.samples_ms) (timeout_rows k (n - k)),
        ),
        omega (
          arith,
          s.1,
          t.1,
          sum,
          visible,
          with_last-append "timeout" (sample_rows 0 res.samples_ms) (timeout_rows k (n - k)),
        ),
      )

  chain_rows-counts :
      (i : ℕ) (flags : List Bool)
      → (length (chain_rows i flags) ≡ length flags)
        × (with_last "1" (chain_rows i flags) ≡ count flags)
  unfolding chain_rows
  chain_rows-counts i [] = (refl, refl)
  chain_rows-counts i (true ∷ flags) = ground (arith, chain_rows-counts (suc i) flags)
  chain_rows-counts i (false ∷ flags) = ground (arith, chain_rows-counts (suc i) flags)

  -- The rows of a staleness experiment that ended with no error: one for each trial, and as many with
  -- "timeout" as the result counts.
  pub run_staleness_lem :
      {F : Type 0} (avg : Average F) (index : ℕ → ℕ) (trials : List StalenessTrial)
      {r : StalenessResult F}
      → ((n : ℕ) → index n ≤ n)
      → measure_staleness avg index trials ≡ some (r, true)
      → (length (run_staleness r (length trials)) ≡ length trials)
        × (with_last "timeout" (run_staleness r (length trials)) ≡ r.timeouts)
  run_staleness_lem avg index trials {r} low h =
      let found = measure_staleness_lem avg index trials low in
      let same = some_inv (sym h ∙ found.2) in
      elim (found.3) [
        | inl failed ↦ absurd (true_ne_false (ap (λ p. p.1) same ∙ failed))
        | inr whole ↦
            complete_rows r (length trials)
              (subst (λ s. IsComplete s (length trials)) (sym (ap (λ p. p.0) same)) whole)
      ]

  -- The rows of a causal experiment that ended with no error: one for each trial, and as many with "1" as
  -- the result counts violations.
  pub run_causal_lem :
      (trials : List ChainTrial)
      → (measure_causal_chains trials).1 ≡ true
      → let r = (measure_causal_chains trials).0 in
        (length (run_causal r) ≡ length trials) × (with_last "1" (run_causal r) ≡ r.violations)
  unfolding run_causal
  run_causal_lem trials good =
      let r = (measure_causal_chains trials).0 in
      let c = measure_causal_chains_lem trials good in
      let rows = chain_rows-counts 0 r.trial_violations in (rows.0 ∙ c.1, rows.1 ∙ sym c.0)
