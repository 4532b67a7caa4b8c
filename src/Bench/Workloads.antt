-- ===== src/Bench/Workloads.antt =====
-- Which workloads pass, and what is loaded.
use distributed_key_value_st.Prelude.{
  ℕ, zero, suc, String, ◌≡◌, ◌↔◌, ◌⊎◌, true, false, Bool, none, List, [], ◌∷◌, arith, eq_iff, sym,
  ◌∙◌, ◌≢◌, inl, inr,
}
use distributed_key_value_st.Prelude.Int.{pos, ◌<ℤ◌}
use distributed_key_value_st.Proto.Kv.{PutRequest}
use distributed_key_value_st.Bench.{
  Floats, Workload, validate, validate_sum, validate_distribution, load,
}

empty_ne_uniform : ◌≢◌ {A = String} "" "uniform"
empty_ne_uniform e = cc

empty_ne_zipfian : ◌≢◌ {A = String} "" "zipfian"
empty_ne_zipfian e = cc

-- Neither of the supported names is empty.
not_empty : (dist : String) → (dist ≡ "uniform") ⊎ (dist ≡ "zipfian") → dist ≢ ""
not_empty dist (inl e) f = empty_ne_uniform (sym f ∙ e)
not_empty dist (inr e) f = empty_ne_zipfian (sym f ∙ e)

distribution_iff :
    (dist : String)
    → (validate_distribution dist ≡ none) ↔ ((dist ≡ "uniform") ⊎ (dist ≡ "zipfian"))
unfolding validate_distribution
distribution_iff dist =
    ground (arith, eq_iff dist "", eq_iff dist "uniform", eq_iff dist "zipfian", not_empty dist)

sum_iff :
    {F : Type 0} (fl : Floats F) (sum : F) (w : Workload F)
    → (validate_sum fl sum w ≡ none) ↔ (
        (fl.lt sum fl.sum_low ≡ false)
        × (fl.lt fl.sum_high sum ≡ false)
        × (pos 0 <ℤ w.field_length)
        × ((w.request_distribution ≡ "uniform") ⊎ (w.request_distribution ≡ "zipfian")))
unfolding validate_sum
sum_iff fl sum w = ground (arith, distribution_iff w.request_distribution)

-- A workload passes validation exactly if its counts and its field length are positive, its proportions
-- do not sum to less than the lower or more than the upper bound, and its distribution is one of
-- the two supported.
pub validate-none_iff :
    {F : Type 0} (fl : Floats F) (w : Workload F)
    → (validate fl w ≡ none) ↔ (
        (pos 0 <ℤ w.record_count)
        × (pos 0 <ℤ w.operation_count)
        × (fl.lt
              (fl.add (fl.add w.read_proportion w.update_proportion) w.insert_proportion)
              fl.sum_low
            ≡ false)
        × (fl.lt fl.sum_high
              (fl.add (fl.add w.read_proportion w.update_proportion) w.insert_proportion)
            ≡ false)
        × (pos 0 <ℤ w.field_length)
        × ((w.request_distribution ≡ "uniform") ⊎ (w.request_distribution ≡ "zipfian")))
unfolding validate
validate-none_iff fl w = ground (
  arith,
  sum_iff fl (fl.add (fl.add w.read_proportion w.update_proportion) w.insert_proportion) w,
)

-- The requests for `n` records from `i` on.
abbrev pub requests : (ℕ → String) → List ℕ → ℕ → ℕ → List PutRequest
requests key_for value i zero = []
requests key_for value i (suc n) =
    record { key = key_for i; value = value } ∷ requests key_for value (suc i) n

-- A load that succeeds has put each of its records once, in order, under the key of its number.
pub load_lem :
    (key_for : ℕ → String) (put_fails : PutRequest → Bool) (value : List ℕ) (i n : ℕ)
    {sent : List PutRequest}
    → load key_for put_fails value i n ≡ (sent, true)
    → sent ≡ requests key_for value i n
unfolding load
load_lem key_for put_fails value i zero h = cc
load_lem key_for put_fails value i (suc n) h = ground (
  arith,
  load_lem key_for put_fails value (suc i) n {sent = (load key_for put_fails value (suc i) n).0},
)
