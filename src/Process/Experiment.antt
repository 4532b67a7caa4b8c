-- ===== src/Process/Experiment.antt =====
-- cmd/experiments/main.go: the process that runs the experiments and appends their rows. Flags are
-- arguments, and the trials what the nodes answer in them; dialling and printing are left out.
use distributed_key_value_st.Prelude.{
  ℕ, zero, suc, ◌≤◌, ◌≡◌, refl, sym, ap, subst, ◌∙◌, String, Bool, true, false, Option, none, some,
  List, [], ◌∷◌, ◌++◌, arith, length, append_assoc, append-nil, if◌then◌else◌, ◌==◌,
}
use distributed_key_value_st.Csv.{Row, File, System, append_trial_row, dir_of}
use distributed_key_value_st.Csv.Header.{started}
use distributed_key_value_st.Experiments.Trials.{
  Average, StalenessResult, StalenessTrial, measure_staleness, CausalChainResult, ChainTrial,
  measure_causal_chains,
}
use distributed_key_value_st.Experiments.Table.{
  Format, with_last, run_staleness, run_causal, run_staleness_lem, run_causal_lem,
}

-- The header that `appendTrialRow` writes.
abbrev pub trial_header : Row
trial_header = "mode" ∷ "test" ∷ "trial" ∷ "staleness_ms" ∷ "violation" ∷ []

-- The calls of `appendTrialRow` for the rows, each with what it finds, and whether the process goes on.
append_rows : List ℕ → System → List Row → File → File × Bool
append_rows path sys [] file = (file, true)
append_rows path sys (row ∷ rows) file =
    let (file', good) = append_trial_row path trial_header row sys file in
    let rest = append_rows path sys rows file' in if good then rest else (file', false)

exit_after : File × Bool → File × ℕ
exit_after (file, good) = (file, if good then 0 else 1)

pub record Setting (F : Type 0) : Type 0 where
  pub average : Average F
  pub index : ℕ → ℕ
  pub format : Format
  pub mode : String
  pub staleness_trials : List StalenessTrial
  pub chain_trials : List ChainTrial
  pub system : System
  pub output : List ℕ

module _ {F : Type 0} (s : Setting F) where
  -- `runStaleness`: an error exits with 1, a panic with 2.
  staleness_of : Option (StalenessResult F × Bool) → File → File × ℕ
  unfolding append_rows exit_after
  staleness_of none file = (file, 2)
  staleness_of (some (res, false)) file = (file, 1)
  staleness_of (some (res, true)) file = exit_after (
      append_rows s.output s.system (run_staleness s.format s.mode res (length s.staleness_trials))
        file)

  run_staleness_test : File → File × ℕ
  unfolding staleness_of
  run_staleness_test = staleness_of (measure_staleness s.average s.index s.staleness_trials)

  -- `runCausal`.
  causal_of : CausalChainResult × Bool → File → File × ℕ
  unfolding append_rows exit_after
  causal_of (res, false) file = (file, 1)
  causal_of (res, true) file =
      exit_after (append_rows s.output s.system (run_causal s.format s.mode res) file)

  run_causal_test : File → File × ℕ
  unfolding causal_of
  run_causal_test = causal_of (measure_causal_chains s.chain_trials)

  -- The second test of "all", after the first.
  then_causal : File × ℕ → File × ℕ
  unfolding run_causal_test
  then_causal (file, zero) = run_causal_test file
  then_causal (file, suc code) = (file, suc code)

  -- `main`: the CSV file at the end, and the exit status.
  pub experiment_process : String → File → File × ℕ
  unfolding run_staleness_test run_causal_test then_causal
  experiment_process test file =
      if test == "staleness"
      then run_staleness_test file
      else if test == "causal"
      then run_causal_test file
      else if test == "all"
      then then_causal (run_staleness_test file)
      else (file, 1)

-- Nothing fails in the file system.
pub record IsWorking (sys : System) : Type 0 where
  pub makes_dir : (dir : List ℕ) → sys.makes_dir dir ≡ true
  pub opens : sys.opens ≡ true
  pub takes_header : sys.takes_header ≡ true
  pub takes_row : sys.takes_row ≡ true
  pub flushes : sys.flushes ≡ true

-- The file after rows have been appended to it.
abbrev pub grown : File → List Row → File
grown file [] = file
grown file (row ∷ rows) = some (started trial_header file ++ row ∷ rows)

append_trial_row_lem :
    (path : List ℕ) (row : Row) (sys : System) (file : File)
    → IsWorking sys
    → append_trial_row path trial_header row sys file
      ≡ (some (started trial_header file ++ row ∷ []), true)
unfolding append_trial_row
append_trial_row_lem path row sys none w =
    ground (arith, w.makes_dir (dir_of path), w.opens, w.takes_header, w.takes_row, w.flushes)
append_trial_row_lem path row sys (some rows) w =
    ground (arith, w.makes_dir (dir_of path), w.opens, w.takes_header, w.takes_row, w.flushes)

append_rows_lem :
    (path : List ℕ) (sys : System) (rows : List Row) (file : File)
    → IsWorking sys
    → append_rows path sys rows file ≡ (grown file rows, true)
unfolding append_rows
append_rows_lem path sys [] file w = refl
append_rows_lem path sys (row ∷ []) file w = rw (append_trial_row_lem path row sys file w) refl
append_rows_lem path sys (row ∷ next ∷ rows) file w =
    rw (append_trial_row_lem path row sys file w) (
      append_rows_lem path sys (next ∷ rows) (some (started trial_header file ++ row ∷ [])) w
      ∙ ap (λ rs. (some rs, true))
          (append_assoc (started trial_header file) (row ∷ []) (next ∷ rows)))

grown-grown :
    (file : File) (rows more : List Row) → grown (grown file rows) more ≡ grown file (rows ++ more)
grown-grown file [] more = refl
grown-grown file (row ∷ rows) [] =
    ap (λ rs. some (started trial_header file ++ row ∷ rs)) (sym (append-nil rows))
grown-grown file (row ∷ rows) (m ∷ more) =
    ap some (append_assoc (started trial_header file) (row ∷ rows) (m ∷ more))

module _ {F : Type 0} (s : Setting F) (file : File) (w : IsWorking s.system) where
  staleness_done :
      {r : StalenessResult F}
      → measure_staleness s.average s.index s.staleness_trials ≡ some (r, true)
      → run_staleness_test s file
        ≡ (grown file (run_staleness s.format s.mode r (length s.staleness_trials)), 0)
  unfolding run_staleness_test
  staleness_done {r} e =
      ap (λ o. staleness_of s o file) e
      ∙ ap exit_after (
          append_rows_lem s.output s.system
            (run_staleness s.format s.mode r (length s.staleness_trials)) file w)

  causal_done :
      (end : CausalChainResult × Bool)
      → measure_causal_chains s.chain_trials ≡ end
      → end.1 ≡ true
      → run_causal_test s file ≡ (grown file (run_causal s.format s.mode end.0), 0)
  unfolding run_causal_test
  causal_done (res, true) e good =
      ap (λ o. causal_of s o file) e
      ∙ ap exit_after (append_rows_lem s.output s.system (run_causal s.format s.mode res) file w)
  causal_done (res, false) e good = cc

-- The test "all", if nothing fails: neither the nodes nor the file system. The process exits with 0,
-- and the file has grown by the rows of the staleness experiment and then by those of the causal one,
-- under a header if it was new. There is one row for each trial, in the first part as many timeouts as
-- the result of its experiment has, and in the second as many violations.
pub experiment_process_lem :
    {F : Type 0} (s : Setting F) (file : File) {r : StalenessResult F} {c : CausalChainResult}
    → ((n : ℕ) → s.index n ≤ n)
    → IsWorking s.system
    → measure_staleness s.average s.index s.staleness_trials ≡ some (r, true)
    → measure_causal_chains s.chain_trials ≡ (c, true)
    → let rows = run_staleness s.format s.mode r (length s.staleness_trials) in
      let more = run_causal s.format s.mode c in
      (experiment_process s "all" file ≡ (grown file (rows ++ more), 0))
      × (length rows ≡ length s.staleness_trials)
      × (with_last "timeout" rows ≡ r.timeouts)
      × (length more ≡ length s.chain_trials)
      × (with_last "1" more ≡ c.violations)
unfolding experiment_process
experiment_process_lem s file {r} {c} low w first second =
    let rows = run_staleness s.format s.mode r (length s.staleness_trials) in
    let more = run_causal s.format s.mode c in
    let counts = run_staleness_lem s.format s.mode s.average s.index s.staleness_trials low first in
    let chains = run_causal_lem s.format s.mode s.chain_trials (ap (λ e. e.1) second) in
    let same : (measure_causal_chains s.chain_trials).0 ≡ c = ap (λ e. e.0) second in
    (
      ap (then_causal s) (staleness_done s file w first)
          ∙ causal_done s (grown file rows) w (c, true) second refl
          ∙ ap (λ f. (f, 0)) (grown-grown file rows more),
      counts.0,
      counts.1,
      subst (λ d. length (run_causal s.format s.mode d) ≡ length s.chain_trials) same chains.0,
      subst (λ d. with_last "1" (run_causal s.format s.mode d) ≡ d.violations) same chains.1,
    )
