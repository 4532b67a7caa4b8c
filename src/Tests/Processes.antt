-- ===== src/Tests/Processes.antt =====
-- cmd/checker and cmd/experiments: runs of the checker and of the experiments.
use distributed_key_value_st.Prelude.{
  ℕ, ◌*◌, ◌/◌, String, true, false, ◌≡◌, ◌↔◌, refl, none, some, List, [], ◌∷◌, ◌++◌, arith, length,
  Memᴰ, All,
}
use distributed_key_value_st.Prelude.Int.{pos, ◌+ℤ◌, ◌<ℤ◌}
use distributed_key_value_st.Experiments.{exchange_sort, percentile, shows, get_elem?}
use distributed_key_value_st.Checker.{bytes_equal, check_keys}
use distributed_key_value_st.Checker.Printed
use distributed_key_value_st.Checker.Printed.{report_string, report_string_lem}
use distributed_key_value_st.Checker.Consistent.{Agree}
use distributed_key_value_st.Experiments.Table.{run_staleness, run_causal, with_last}
use distributed_key_value_st.Experiments.Trials.{
  CausalChainResult, StalenessTrial, ChainTrial, StalenessResult, measure_staleness,
  finish_staleness, staleness_loop, record_seen, poll_visible, chains_loop, mean,
  measure_causal_chains,
}
use distributed_key_value_st.Process.Check
use distributed_key_value_st.Process.Check.{
  keys_from, parse_list, clients_at, Explains, check_process, check_process_lem,
}
use distributed_key_value_st.Process.Experiment.{
  Setting, IsWorking, grown, experiment_process, experiment_process_lem,
}
use distributed_key_value_st.Tests.Tools.{shown}
use distributed_key_value_st.Tests.Benchmarks.{plain, path, working}

abbrev same_answer : Check.Turn
same_answer = record { rpc = λ addr req. some (shown (1 ∷ [])); now = pos 9; cancelled = false }

abbrev split_one : String → List String
split_one raw = raw ∷ []

abbrev as_is : String → String
as_is part = part

late : pos 5 +ℤ pos 3 <ℤ pos 9
unfolding ◌+ℤ◌
late = omega arith

check_process_lem_example :
    (code : ℕ) × (check_process split_one as_is
        (λ addr. true)
        plain
        "a:1"
        "user"
        2
        (pos 5)
        (pos 3)
        (same_answer ∷ [])
      ≡ some code)
    × Explains
        (λ addr. true)
        (keys_from plain "user" 0 2)
        (parse_list split_one as_is "a:1")
        (same_answer ∷ [])
        code
check_process_lem_example =
    check_process_lem split_one as_is (λ addr. true) plain "a:1" "user" 2 (pos 5) (pos 3)
      (same_answer ∷ []) same_answer (Memᴰ.head refl) late

abbrev seen_trial : StalenessTrial
seen_trial = record {
  val = 1 ∷ [];
  put_fails = false;
  glances =
      record { reply = some (shown []); elapsed = pos 5 }
      ∷ record { reply = some (shown (1 ∷ [])); elapsed = pos 10 }
      ∷ [];
}

abbrev chain_trial : ChainTrial
chain_trial = record {
  val_a = 97 ∷ [];
  val_b = 98 ∷ [];
  put_a_fails = false;
  get_fails = false;
  put_b_fails = false;
  looks = [];
}

abbrev setting : Setting ℕ
setting = record {
  average = record { zero_mean = 0; div = λ s n. n };
  index = λ n. n * 95 / 100;
  format = record { int = λ i. "0"; millis = λ ms. "0.00" };
  mode = "eventual";
  staleness_trials = seen_trial ∷ [];
  chain_trials = chain_trial ∷ [];
  system = working;
  output = path;
}

abbrev one_sample : StalenessResult ℕ
one_sample = record {
  trials = 1;
  visible = 1;
  mean_ms = 1;
  p95_ms = pos 10;
  timeouts = 0;
  samples_ms = pos 10 ∷ [];
}

one_measured :
    measure_staleness setting.average setting.index setting.staleness_trials
    ≡ some (one_sample, true)
unfolding measure_staleness finish_staleness staleness_loop record_seen poll_visible shows
    bytes_equal percentile exchange_sort mean get_elem?
one_measured = refl

abbrev chain_result : CausalChainResult
chain_result = (measure_causal_chains setting.chain_trials).0

chain_measured : measure_causal_chains setting.chain_trials ≡ (chain_result, true)
unfolding measure_causal_chains chains_loop
chain_measured = refl

working-IsWorking : IsWorking working
working-IsWorking = record {
  makes_dir = λ dir. refl;
  opens = refl;
  takes_header = refl;
  takes_row = refl;
  flushes = refl;
}

experiment_process_lem_example :
    let rows = run_staleness setting.format setting.mode one_sample 1 in
    let more = run_causal setting.format setting.mode chain_result in
    (experiment_process setting "all" none ≡ (grown none (rows ++ more), 0))
    × (length rows ≡ 1)
    × (with_last "timeout" rows ≡ 0)
    × (length more ≡ 1)
    × (with_last "1" more ≡ chain_result.violations)
experiment_process_lem_example =
    experiment_process_lem setting none (λ n. omega arith) working-IsWorking one_measured
      chain_measured

abbrev report_format : Printed.Format
report_format = record {
  status_line = λ status n. status;
  key_line = λ key. key;
  node_line = λ node. node.address;
}

report_string_lem_example :
    (report_string report_format
        (check_keys (clients_at ("a:1" ∷ "b:1" ∷ []) same_answer) ("x" ∷ []))
      ≡ "CONSISTENT" ∷ [])
    ↔ All (Agree (clients_at ("a:1" ∷ "b:1" ∷ []) same_answer)) ("x" ∷ [])
report_string_lem_example =
    report_string_lem report_format (clients_at ("a:1" ∷ "b:1" ∷ []) same_answer) ("x" ∷ [])
