-- ===== src/Bench/Summary/Columns.antt =====
-- What a run of the driver reports, and the file of the reports.
use distributed_key_value_st.Prelude.{
  ℕ, suc, ◌+◌, ◌≤◌, ◌≡◌, refl, subst, ap, some, none, true, false, ◌⊎◌, inl, inr, Bool-cases,
  Option, List, [], ◌∷◌, map, arith, length, All, String,
}
use distributed_key_value_st.Prelude.Int.{ℤ, pos_part, ◌≤ℤ◌}
use distributed_key_value_st.Bench.{Floats, Workload, Memory}
use distributed_key_value_st.Bench.Run.{Turn, Counters, run}
use distributed_key_value_st.Bench.Counts.{Counted, run-Counted}
use distributed_key_value_st.Bench.Summary.{
  Maths, Summary, Latencies, Format, summarize, summed, run_driver, row, no_counts, summary_header,
}
use distributed_key_value_st.Bench.Summary.Percentiles.{Sorts, IsOrdered, summarize_lem}
use distributed_key_value_st.Csv.{Row, File, System, write_summary_csv, write_all}
use distributed_key_value_st.Csv.Header.{write_all_lem}

-- What is true of a report of `n` operations.
abbrev pub IsReport : {F : Type 0} → Summary F → ℕ → Type 0
IsReport r n =
    (r.operations ≡ n)
    × (r.reads + r.writes ≡ n)
    × (r.errors ≤ n)
    × (r.latencies.p50 ≤ℤ r.latencies.p95)
    × (r.latencies.p95 ≤ℤ r.latencies.p99)

ordered_latencies :
    {F : Type 0} (maths : Maths F) (xs : List ℤ) (n : ℕ)
    → Sorts maths
    → length xs ≡ suc n
    → IsOrdered maths n
    → (lat : Latencies) × (summarize maths xs ≡ some lat)
      × (lat.p50 ≤ℤ lat.p95)
      × (lat.p95 ≤ℤ lat.p99)
ordered_latencies maths [] n sorts long order = absurd (omega arith)
ordered_latencies maths (x ∷ xs) n sorts long order =
    let found =
      summarize_lem maths x xs sorts (subst (IsOrdered maths) (omega (arith, long)) order) in
    (found.0, found.1, found.2, found.3)

-- A slice that the run makes does not fit in memory.
abbrev pub IsTooLarge : {F : Type 0} → Memory → Workload F → Type 0
IsTooLarge mem w =
    (mem.makes_counts w.operation_count ≡ false) ⊎ (mem.makes_bytes w.field_length ≡ false)

-- What a run of `n` operations ends with: a report, or a panic where a slice does not fit.
abbrev pub Reported : {F : Type 0} → Memory → Workload F → ℕ → Option (Summary F) → Type 0
Reported mem w n none = IsTooLarge mem w
Reported mem w n (some r) = IsReport r n

module _ {F : Type 0} (fl : Floats F) (maths : Maths F) (mem : Memory) (print : String → ℕ → String)
    (w : Workload F) (mode : String) (seed : ℤ) (duration : ℤ) (sorts : Sorts maths)
    (ordered : (n : ℕ) → IsOrdered maths n) where
  summed-Reported :
      (n : ℕ) (end : Option Counters)
      → Counted mem w (suc n) end
      → Reported mem w (suc n) (summed maths w mode seed duration end)
  unfolding summed
  summed-Reported n none h = inr h
  summed-Reported n (some c) (v, size) =
      let (lat, e, low, high) =
        ordered_latencies maths c.latencies n sorts (omega (arith, v.timed, size)) (ordered n) in
      rw e (size, omega (arith, v.tallied, size), omega (arith, v.failed, size), low, high)

  -- `Run` of one operation or more ends with a report, unless a slice does not fit in memory.
  pub run_driver_lem :
      (turns : ℕ → Turn F) (n : ℕ)
      → pos_part w.operation_count ≡ suc n
      → Reported mem w (suc n) (run_driver fl maths mem print w mode seed turns duration)
  unfolding run_driver
  run_driver_lem turns n size = elim (Bool-cases (mem.makes_counts w.operation_count)) [
    | inl fits ↦
        rw (fits, size)
          (summed-Reported n _ (
            subst (λ m. Counted mem w m (run fl mem print w turns 0 (suc n) no_counts).end)
              (omega arith)
              (run-Counted mem w fl print turns 0 (suc n) no_counts
                (record { tallied = refl; timed = refl; failed = omega arith }))))
    | inr large ↦ rw large (inl large)
  ]

module _ {F : Type 0} (fmt : Format F) where
  -- A run's report and what its call finds, with the report as the row that it writes.
  abbrev pub written : List (Summary F × System) → List (Row × System)
  written runs = map (λ (c : Summary F × System). (row fmt c.0, c.1)) runs

  abbrev rows : List (Summary F × System) → List Row
  rows runs = map (λ (c : Row × System). c.0) (written runs)

  rows_wide :
      (runs : List (Summary F × System))
      → All (λ (r : Row). length r ≡ length summary_header) (rows runs)
  unfolding row summary_header
  rows_wide [] = tt
  rows_wide (r ∷ runs) = (refl, rows_wide runs)

  length-rows : (runs : List (Summary F × System)) → length (rows runs) ≡ length runs
  length-rows [] = refl
  length-rows (r ∷ runs) = ap (λ n. suc n) (length-rows runs)

  -- A file that runs of the benchmark have made, one after another and each with success, holds a row for
  -- each run under one header, and every row has as many columns as the header.
  pub reports_lem :
      (path : List ℕ) (r : Summary F) (sys : System) (runs : List (Summary F × System))
      {file : File}
      → write_all (write_summary_csv path summary_header) (written ((r, sys) ∷ runs)) none
        ≡ (file, true)
      → (lines : List Row) × (file ≡ some (summary_header ∷ lines))
        × (length lines ≡ suc (length runs))
        × All (λ (l : Row). length l ≡ length summary_header) lines
  reports_lem path r sys runs h = (
    rows ((r, sys) ∷ runs),
    write_all_lem path summary_header (row fmt r) sys (written runs) none h,
    length-rows ((r, sys) ∷ runs),
    rows_wide ((r, sys) ∷ runs),
  )
