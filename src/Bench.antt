-- ===== src/Bench.antt =====
-- bench/workload.go and bench/ycsb_driver.go: the benchmark's workload and the driver that runs it
-- against a node. Go's floating-point operations, `fmt.Sprintf` and what the node answers are
-- parameters; the random draws and the times taken are data of each turn, and what fits in memory is
-- a parameter.
pub mod Counts
pub mod Draw
pub mod Run
pub mod Summary
pub mod Config
pub mod Workloads
use distributed_key_value_st.Prelude.{
  ℕ, zero, suc, ◌+◌, ◌%◌, String, Bool, true, false, not, ◌&&◌, ◌||◌, Option, none, some, List, [],
  ◌∷◌, ◌++◌, leb, if◌then◌else◌, ◌==◌,
}
use distributed_key_value_st.Prelude.Int.{ℤ, pos, leb_ℤ}
use distributed_key_value_st.Proto.Kv.{GetRequest, PutRequest}

-- The float64 operations and constants that the source uses.
pub record Floats (F : Type 0) : Type 0 where
  pub add : F → F → F
  pub sub : F → F → F
  pub lt : F → F → Bool
  pub sum_low : F
  pub sum_high : F

pub record Workload (F : Type 0) : Type 0 where
  pub name : String
  pub record_count : ℤ
  pub operation_count : ℤ
  pub read_proportion : F
  pub update_proportion : F
  pub insert_proportion : F
  pub key_prefix : String
  pub field_length : ℤ
  pub request_distribution : String
  pub zipfian_constant : F

pub data WorkloadError : Type 0 where
  bad_record_count : WorkloadError
  bad_operation_count : WorkloadError
  bad_proportions : WorkloadError
  bad_field_length : WorkloadError
  no_distribution : WorkloadError
  unsupported_distribution : WorkloadError

-- The end of `Validate`: the distribution.
validate_distribution : String → Option WorkloadError
validate_distribution dist =
    if dist == ""
    then some no_distribution
    else if dist == "uniform" || dist == "zipfian"
    then none
    else some unsupported_distribution

-- The middle of `Validate`: the sum of the proportions and the field length.
validate_sum : {F : Type 0} → Floats F → F → Workload F → Option WorkloadError
validate_sum fl sum w =
    if fl.lt sum fl.sum_low || fl.lt fl.sum_high sum
    then some bad_proportions
    else if leb_ℤ w.field_length (pos 0)
    then some bad_field_length
    else validate_distribution w.request_distribution

-- The receiver is a copy, so the key prefix that the method sets is lost; nothing after reads it.
pub validate : {F : Type 0} → Floats F → Workload F → Option WorkloadError
validate fl w =
    let sum = fl.add (fl.add w.read_proportion w.update_proportion) w.insert_proportion in
    if leb_ℤ w.record_count (pos 0)
    then some bad_record_count
    else if leb_ℤ w.operation_count (pos 0)
    then some bad_operation_count
    else validate_sum fl sum w

-- Which slices fit in memory: `make([]int64, 0, n)` and `make([]byte, n)` panic if theirs does not.
pub record Memory : Type 0 where
  pub makes_counts : ℤ → Bool
  pub makes_bytes : ℤ → Bool

-- `Load`, `n` records from `i` on: the puts sent and whether all succeeded. `key_for` is `KeyFor`.
unfoldable pub load : (ℕ → String) → (PutRequest → Bool) → List ℕ → ℕ → ℕ → List PutRequest × Bool
load key_for put_fails value i zero = ([], true)
load key_for put_fails value i (suc n) =
    let req : PutRequest = record { key = key_for i; value = value } in
    let (sent, success) = load key_for put_fails value (suc i) n in
    if put_fails req then (req ∷ [], false) else (req ∷ sent, success)
