-- ===== src/Bench/Draw.antt =====
-- bench/ycsb_driver.go and bench/workload.go: the key of an operation. `Rand.Intn`, `fmt.Sprintf` and
-- the power in `zipfianIndex` are parameters. `Intn` panics unless its argument is positive, which
-- `Validate` makes the number of records.
pub mod Range
use Prim.Native.Nat.{bit_xor}
use distributed_key_value_st.Prelude.{
  ℕ, zero, suc, ◌+◌, ◌-◌, ◌*◌, ◌/◌, ◌%◌, ◌^◌, String, Bool, leb, if◌then◌else◌, ◌==◌,
}
use distributed_key_value_st.Prelude.Int.{ℤ, pos_part, leb_ℤ, pos}
use distributed_key_value_st.Bench.{Workload}

-- What the draw of an index uses: `r.Intn(n)` and, for the draw `u` of `r.Float64()`, the number
-- `int(float64(n) * math.Pow(u, 1.0/theta))`, which is not below zero.
pub record Source (F : Type 0) : Type 0 where
  pub intn : ℕ → ℕ
  pub scale : ℕ → F → ℕ
  pub not_positive : F → Bool
  pub default_theta : F

-- The eight turns of the hash's loop: `hash ^= uint64(val & 0xff); hash *= prime64; val >>= 8`.
hash_loop : ℕ → ℕ → ℕ → ℕ
hash_loop zero val hash = hash
hash_loop (suc i) val hash =
    hash_loop i (val / 256) ((bit_xor hash (val % 256) * 1099511628211) % 2 ^ 64)

unfoldable pub fnv_hash64 : ℕ → ℕ
unfolding hash_loop
fnv_hash64 val = hash_loop 8 val 14695981039346656037

unfoldable pub zipfian_index : {F : Type 0} → Source F → ℕ → F → ℕ
zipfian_index src n theta =
    if leb n 1
    then 0
    else let theta' = if src.not_positive theta then src.default_theta else theta in
      let idx = src.scale n theta' in if leb n idx then n - 1 else idx

-- An index is below 2^63, so that the conversions to int64 and uint64 keep it.
unfoldable pub scrambled_zipfian_index : {F : Type 0} → Source F → ℕ → F → ℕ
scrambled_zipfian_index src n theta =
    if leb n 1 then 0 else fnv_hash64 (zipfian_index src n theta) % n

-- `key_for` is `KeyFor` of the workload.
unfoldable pub pick_index : {F : Type 0} → Source F → Workload F → ℕ
pick_index src w =
    let n = pos_part w.record_count in
    if w.request_distribution == "zipfian"
    then scrambled_zipfian_index src n w.zipfian_constant
    else if w.request_distribution == "uniform"
    then src.intn n
    else src.intn n

-- `fmt.Sprintf("%s%d", w.KeyPrefix, i)`, with `print` for `Sprintf`.
unfoldable pub key_for : {F : Type 0} → (String → ℕ → String) → Workload F → ℕ → String
key_for print w i = print w.key_prefix i

unfoldable pub pick_key : {F : Type 0} → (String → ℕ → String) → Source F → Workload F → String
pick_key print src w = key_for print w (pick_index src w)
