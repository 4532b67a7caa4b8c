-- ===== src/Bench/Summary.antt =====
-- bench/ycsb_driver.go: the summary of a run, and its row in the CSV file. `sort.Slice`, the positions
-- that `percentile` computes in floating point, the throughput and `fmt.Sprintf` are parameters.
pub mod Percentiles
pub mod Columns
use distributed_key_value_st.Prelude.{
  ℕ, zero, suc, ◌+◌, ◌-◌, ◌*◌, ◌/◌, ◌%◌, ◌^◌, String, Bool, Option, none, some, List, [], ◌∷◌,
  length, ltb, if◌then◌else◌,
}
use distributed_key_value_st.Prelude.Int.{ℤ, pos, negsuc, pos_part, ◌+ℤ◌}
use distributed_key_value_st.Bench.{Floats, Workload, Memory}
use distributed_key_value_st.Bench.Run.{Turn, Counters, run}
use distributed_key_value_st.Csv.{Row}
use distributed_key_value_st.Experiments.{get_elem?}

-- An int64 that holds `n`, modulo 2^64.
signed : ℕ → ℤ
signed m = if ltb m (2 ^ 63) then pos m else negsuc (2 ^ 64 - m - 1)

wrap : ℤ → ℤ
unfolding signed
wrap (pos n) = signed (n % 2 ^ 64)
wrap (negsuc n) = signed (2 ^ 64 - 1 - n % 2 ^ 64)

-- `sum += v`
sum_from : ℤ → List ℤ → ℤ
unfolding wrap
sum_from sum [] = sum
sum_from sum (v ∷ vs) = sum_from (wrap (sum +ℤ v)) vs

minus : ℕ → ℤ
minus zero = pos 0
minus (suc k) = negsuc k

-- The int64 quotient, which drops the fraction.
quotient : ℤ → ℕ → ℤ
unfolding minus
quotient (pos a) n = pos (a / n)
quotient (negsuc a) n = minus (suc a / n)

-- `percentile` of the sorted latencies; `index` is its position, from the number of latencies less one.
unfoldable pub percentile : (ℕ → ℕ) → List ℤ → Option ℤ
percentile index [] = some (pos 0)
percentile index (x ∷ xs) = get_elem? (x ∷ xs) (index (length xs))

pub record Latencies : Type 0 where
  pub p50 : ℤ
  pub p95 : ℤ
  pub p99 : ℤ
  pub avg : ℤ

-- The library's and the machine's part: `sort.Slice` by `<`, the positions of the percentiles, and the
-- throughput of a number of operations in a time.
pub record Maths (F : Type 0) : Type 0 where
  pub sort : List ℤ → List ℤ
  pub index_50 : ℕ → ℕ
  pub index_95 : ℕ → ℕ
  pub index_99 : ℕ → ℕ
  pub throughput : ℕ → ℤ → F

-- A panic is none.
infixl 5 ◌>>=◌
◌>>=◌ : {A B : Type 0} → Option A → (A → Option B) → Option B
none >>= f = none
some a >>= f = f a

-- `summarize`; none for a panic out of range.
unfoldable pub summarize : {F : Type 0} → Maths F → List ℤ → Option Latencies
unfolding sum_from quotient ◌>>=◌
summarize maths [] = some (record { p50 = pos 0; p95 = pos 0; p99 = pos 0; avg = pos 0 })
summarize maths (l ∷ latencies) = do
  let sorted = maths.sort (l ∷ latencies)
  p50 ← percentile maths.index_50 sorted
  p95 ← percentile maths.index_95 sorted
  p99 ← percentile maths.index_99 sorted
  some (record {
    p50 = p50;
    p95 = p95;
    p99 = p99;
    avg = quotient (sum_from (pos 0) sorted) (length sorted);
  })

-- `Result`.
pub record Summary (F : Type 0) : Type 0 where
  pub mode : String
  pub workload : String
  pub seed : ℤ
  pub peer_delay_ms : ℤ
  pub operations : ℕ
  pub reads : ℕ
  pub writes : ℕ
  pub errors : ℕ
  pub duration : ℤ
  pub throughput : F
  pub latencies : Latencies

-- The counters at the start, and the result with them at the end.
abbrev pub no_counts : Counters
no_counts = record { operations = 0; reads = 0; writes = 0; errors = 0; latencies = [] }

abbrev pub result :
    {F : Type 0} → Maths F → String → String → ℤ → Counters → ℤ → Latencies → Summary F
result maths mode workload seed c duration latencies = record {
  mode = mode;
  workload = workload;
  seed = seed;
  peer_delay_ms = pos 0;
  operations = c.operations;
  reads = c.reads;
  writes = c.writes;
  errors = c.errors;
  duration = duration;
  throughput = maths.throughput c.operations duration;
  latencies = latencies;
}

-- What follows the loop; none for a panic.
summed : {F : Type 0} → Maths F → Workload F → String → ℤ → ℤ → Option Counters → Option (Summary F)
unfolding ◌>>=◌
summed maths w mode seed duration end = do
  c ← end
  lat ← summarize maths c.latencies
  some (result maths mode w.name seed c duration lat)

-- `Driver.Run`, with its turns and the time it took; none for a panic.
unfoldable pub run_driver :
    {F : Type 0}
    → Floats F
    → Maths F
    → Memory
    → (String → ℕ → String)
    → Workload F
    → String
    → ℤ
    → (ℕ → Turn F)
    → ℤ
    → Option (Summary F)
unfolding summed
run_driver fl maths mem print w mode seed turns duration =
    let ran = run fl mem print w turns 0 (pos_part w.operation_count) no_counts in
    if mem.makes_counts w.operation_count then summed maths w mode seed duration ran.end else none

-- `fmt.Sprintf` with "%d", with "%.3f" of a duration in milliseconds, and with "%.2f".
pub record Format (F : Type 0) : Type 0 where
  pub int : ℤ → String
  pub millis : ℤ → String
  pub rate : F → String

-- `SummaryHeader`.
unfoldable pub summary_header : Row
summary_header =
    "mode" ∷ "workload" ∷ "seed" ∷ "peer_delay_ms" ∷ "operations" ∷ "reads" ∷ "writes" ∷ "errors"
    ∷ "duration_ms" ∷ "throughput_ops" ∷ "latency_p50_ns" ∷ "latency_p95_ns" ∷ "latency_p99_ns"
    ∷ "latency_avg_ns" ∷ []

-- `Result.Row`.
unfoldable pub row : {F : Type 0} → Format F → Summary F → Row
row fmt r =
    r.mode
    ∷ r.workload
    ∷ fmt.int r.seed
    ∷ fmt.int r.peer_delay_ms
    ∷ fmt.int (pos r.operations)
    ∷ fmt.int (pos r.reads)
    ∷ fmt.int (pos r.writes)
    ∷ fmt.int (pos r.errors)
    ∷ fmt.millis r.duration
    ∷ fmt.rate r.throughput
    ∷ fmt.int r.latencies.p50
    ∷ fmt.int r.latencies.p95
    ∷ fmt.int r.latencies.p99
    ∷ fmt.int r.latencies.avg
    ∷ []
