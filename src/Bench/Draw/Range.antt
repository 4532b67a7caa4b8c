-- ===== src/Bench/Draw/Range.antt =====
-- Which keys the operations go to.
use distributed_key_value_st.Prelude.{ℕ, ◌<◌, String, ◌≡◌, arith}
use distributed_key_value_st.Prelude.Int.{pos_part}
use distributed_key_value_st.Bench.{Floats, Workload, Memory}
use distributed_key_value_st.Bench.Run.{Request, reading, writing}
use distributed_key_value_st.Bench.Draw.{Source, zipfian_index, key_for}

-- `rand.Rand.Intn(n)` is in [0, n) for a positive `n`.
abbrev pub IsInRange : {F : Type 0} → Source F → Type 0
IsInRange src = (n : ℕ) → 0 < n → src.intn n < n

module _ {F : Type 0} (src : Source F) where
  zipfian_index-lt : (n : ℕ) (theta : F) → 0 < n → zipfian_index src n theta < n
  unfolding zipfian_index
  zipfian_index-lt n theta h = ground arith

-- The key that a request names.
abbrev pub key_of : Request → String
key_of (reading req) = req.key
key_of (writing req) = req.key

module _ {F : Type 0} (fl : Floats F) (mem : Memory) (print : String → ℕ → String)
    (w : Workload F) where
  -- The key of a loaded record: `KeyFor` of an index below `RecordCount`.
  abbrev IsLoaded : Request → Type 0
  IsLoaded r = (k : ℕ) × (k < pos_part w.record_count) × (key_of r ≡ key_for print w k)
