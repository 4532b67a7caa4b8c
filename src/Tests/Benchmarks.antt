-- ===== src/Tests/Benchmarks.antt =====
-- bench and cmd/bench: keys, a run of the benchmark, and the file of its reports.
use distributed_key_value_st.Prelude.{
  ℕ, zero, suc, ◌*◌, ◌/◌, String, Bool, true, false, ◌≡◌, refl, none, some, List, [], ◌∷◌, length,
  All,
}
use distributed_key_value_st.Prelude.Int.{pos}
use distributed_key_value_st.Proto.Kv.{PutRequest}
use distributed_key_value_st.Bench.Run.{Turn}
use distributed_key_value_st.Bench.Draw.{fnv_hash64}
use distributed_key_value_st.Bench.Summary.{Maths, Summary, Format, summary_header, row}
use distributed_key_value_st.Bench.Summary.Columns.{written, reports_lem}
use distributed_key_value_st.Csv.{Row, File, System, write_all, write_summary_csv}
use distributed_key_value_st.Experiments.{exchange_sort}
use distributed_key_value_st.Process.Benchmark.{World, Flags}
use distributed_key_value_st.Tests.Tools.{
  hundredths, half_reads, read_turn, failed_update, unbounded,
}

-- FNV-1a of eight zero bytes, and of the number one.
hash_zero : fnv_hash64 0 ≡ 12161962213042174405
unfolding fnv_hash64
hash_zero = refl

abbrev pub plain : String → ℕ → String
plain prefix i = prefix

abbrev accepts : PutRequest → Bool
accepts req = false

-- A read, and then a write in every turn.
abbrev turns : ℕ → Turn ℕ
turns zero = read_turn
turns (suc i) = failed_update

abbrev maths : Maths ℕ
maths = record {
  sort = exchange_sort;
  index_50 = λ n. n * 50 / 100;
  index_95 = λ n. n * 95 / 100;
  index_99 = λ n. n * 99 / 100;
  throughput = λ n d. n;
}

abbrev format : Format ℕ
format = record { int = λ i. "0"; millis = λ d. "0.000"; rate = λ r. "0.00" }

-- "/a/b"
abbrev pub path : List ℕ
path = 47 ∷ 97 ∷ 47 ∷ 98 ∷ []

abbrev pub working : System
working = record {
  makes_dir = λ dir. true;
  opens = true;
  takes_header = true;
  takes_row = true;
  flushes = true;
  left = [];
}

abbrev world : World ℕ String
world = record {
  floats = hundredths;
  zipfian = record { is_zero = λ f. false; constant = 99 };
  maths = maths;
  format = format;
  read = λ path. some path;
  unmarshal = λ text. some half_reads;
  dials = true;
  print = plain;
  put_fails = accepts;
  turns = λ w. turns;
  memory = unbounded;
  now = pos 7;
  duration = pos 100;
  system = working;
}

abbrev flags : Flags
flags = record {
  workload = "a.yaml";
  mode = "causal";
  seed = pos 0;
  peer_delay_ms = pos 0;
  skip_load = false;
  output = path;
}

abbrev report : Summary ℕ
report = record {
  mode = "strong";
  workload = "a";
  seed = pos 1;
  peer_delay_ms = pos 0;
  operations = 2;
  reads = 1;
  writes = 1;
  errors = 0;
  duration = pos 5;
  throughput = 3;
  latencies = record { p50 = pos 1; p95 = pos 2; p99 = pos 2; avg = pos 1 };
}

two_reports :
    write_all
      (write_summary_csv path summary_header)
      (written format ((report, working) ∷ (report, working) ∷ []))
      none
    ≡ (some (summary_header ∷ row format report ∷ row format report ∷ []), true)
unfolding write_all write_summary_csv
two_reports = refl

reports_lem_example :
    (lines : List Row) × (◌≡◌ {A = File}
      (some (summary_header ∷ row format report ∷ row format report ∷ []))
      (some (summary_header ∷ lines)))
    × (length lines ≡ 2)
    × All (λ (l : Row). length l ≡ length summary_header) lines
reports_lem_example = reports_lem format path report working ((report, working) ∷ []) two_reports
