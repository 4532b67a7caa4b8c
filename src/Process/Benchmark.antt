-- ===== src/Process/Benchmark.antt =====
-- cmd/bench/main.go: one run of the benchmark, from the workload to the row of its report. Flags are
-- arguments; dialling, the file system, the clients' answers and the turns' draws and times are
-- parameters; printing is left out.
use distributed_key_value_st.Prelude.{
  ℕ, ◌≡◌, ◌⊎◌, String, Bool, not, Option, none, some, List, [], ◌∷◌, ◌++◌, if◌then◌else◌,
}
use distributed_key_value_st.Prelude.Int.{ℤ, pos_part}
use distributed_key_value_st.Proto.Kv.{PutRequest}
use distributed_key_value_st.Bench.{Floats, Workload, Memory, load}
use distributed_key_value_st.Bench.Run.{Turn, fill}
use distributed_key_value_st.Bench.Draw.{key_for}
use distributed_key_value_st.Bench.Config.{
  Zipfian, Loaded, unreadable, malformed, read_as, load_workload, driver_seed, IsReady,
}
use distributed_key_value_st.Bench.Summary.{Maths, Summary, Format, run_driver, row, summary_header}
use distributed_key_value_st.Bench.Summary.Columns.{IsReport, IsTooLarge}
use distributed_key_value_st.Csv.{File, System, write_summary_csv}
use distributed_key_value_st.Csv.Header.{started}

-- The machine, the node and the libraries, as the process meets them.
pub record World (F D : Type 0) : Type 0 where
  pub floats : Floats F
  pub zipfian : Zipfian F
  pub maths : Maths F
  pub format : Format F
  pub read : String → Option D
  pub unmarshal : D → Option (Workload F)
  pub dials : Bool
  pub print : String → ℕ → String
  pub put_fails : PutRequest → Bool
  pub turns : Workload F → ℕ → Turn F
  pub memory : Memory
  pub now : ℤ
  pub duration : ℤ
  pub system : System

pub record Flags : Type 0 where
  pub workload : String
  pub mode : String
  pub seed : ℤ
  pub peer_delay_ms : ℤ
  pub skip_load : Bool
  pub output : List ℕ

module _ {F D : Type 0} (world : World F D) (flags : Flags) (file : File) where
  -- The row of the report, and the exit status.
  write_report : Summary F → File × ℕ
  write_report r =
      let (file', good) =
        write_summary_csv flags.output summary_header
          (row world.format (record r { peer_delay_ms = flags.peer_delay_ms })) world.system file in
      (file', if good then 0 else 1)

  -- What follows `Run`; a panic exits with 2.
  finish_run : Option (Summary F) → File × ℕ
  unfolding write_report
  finish_run none = (file, 2)
  finish_run (some r) = write_report r

  run_workload : Workload F → File × ℕ
  unfolding finish_run
  run_workload w = finish_run (
      run_driver world.floats world.maths world.memory world.print w flags.mode
        (driver_seed world.now flags.seed) (world.turns w) world.duration)

  -- The load phase, whose value is `byte('a' + (i % 26))` at each `i`.
  loads : Workload F → Bool
  loads w =
      (load (key_for world.print w) world.put_fails (fill 97 0 0 (pos_part w.field_length)) 0
        (pos_part w.record_count)).1

  -- The load, which panics if its value does not fit in memory, and what follows.
  after_load : Workload F → File × ℕ → File × ℕ
  unfolding loads
  after_load w result =
      if world.memory.makes_bytes w.field_length
      then (if loads w then result else (file, 1))
      else (file, 2)

  run_loaded : Loaded F → File × ℕ
  unfolding run_workload after_load
  run_loaded unreadable = (file, 1)
  run_loaded malformed = (file, 1)
  run_loaded (read_as w (some e)) = (file, 1)
  run_loaded (read_as w none) =
      let result = run_workload w in
      if not world.dials then (file, 1) else if flags.skip_load then result else after_load w result

  -- `main`: the CSV file at the end, and the exit status.
  pub bench_process : File × ℕ
  unfolding run_loaded
  bench_process =
      run_loaded
        (load_workload world.floats world.zipfian world.read world.unmarshal flags.workload)

  -- The process failed, or it panicked for a workload that is ready and too large for the memory, or it
  -- made a report of a workload that is ready and added its row to the file.
  abbrev pub Ends : File × ℕ → Type 0
  Ends end =
      (end.1 ≡ 1)
      ⊎ ((end.1 ≡ 2)
          × ((w : Workload F) × IsReady world.floats world.zipfian w × IsTooLarge world.memory w))
      ⊎ ((end.1 ≡ 0)
          × ((w : Workload F) × (r : Summary F) × IsReady world.floats world.zipfian w
              × IsReport r (pos_part w.operation_count)
              × (end.0
                  ≡ some (
                      started summary_header file
                      ++ row world.format (record r { peer_delay_ms = flags.peer_delay_ms })
                        ∷ []))))
