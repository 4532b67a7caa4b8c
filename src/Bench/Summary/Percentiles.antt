-- ===== src/Bench/Summary/Percentiles.antt =====
-- The latencies that a run reports.
use distributed_key_value_st.Prelude.{
  ℕ, suc, ◌+◌, ◌≤◌, ◌<◌, ◌≡◌, refl, sym, subst, some, List, [], ◌∷◌, arith, length,
}
use distributed_key_value_st.Prelude.Int.{ℤ, pos, ◌≤ℤ◌}
use distributed_key_value_st.Experiments.{get_elem?}
use distributed_key_value_st.Experiments.Sorted.{IsSorted, Rearranges}
use distributed_key_value_st.Experiments.Rank.{up_to, from, ranked, get_elem?-le, total-ones}
use distributed_key_value_st.Bench.Summary.{
  Maths, Latencies, percentile, summarize, sum_from, quotient,
}

-- `sort.Slice` by `<` puts a slice in order.
abbrev pub Sorts : {F : Type 0} → Maths F → Type 0
Sorts maths = (xs : List ℤ) → IsSorted (maths.sort xs) × Rearranges (maths.sort xs) xs

-- The positions of the percentiles among `n + 1` latencies.
abbrev pub IsOrdered : {F : Type 0} → Maths F → ℕ → Type 0
IsOrdered maths n =
    (maths.index_50 n ≤ maths.index_95 n)
    × (maths.index_95 n ≤ maths.index_99 n)
    × (maths.index_99 n ≤ n)

-- A value that more than `k` of the latencies do not exceed, while all but `k` are at least as large.
abbrev pub IsAt : ℤ → ℕ → List ℤ → Type 0
IsAt v k xs = (k < up_to v xs) × (length xs ≤ k + from v xs)

module _ {F : Type 0} (maths : Maths F) where
  percentile-IsAt :
      (index : ℕ → ℕ) (s xs : List ℤ)
      → IsSorted s
      → Rearranges s xs
      → length xs ≡ length s
      → (n : ℕ) → length s ≡ suc n
      → index n ≤ n
      → (v : ℤ) × (percentile index s ≡ some v)
        × (get_elem? s (index n) ≡ some v)
        × IsAt v (index n) xs
  unfolding percentile
  percentile-IsAt index [] xs ordered kept size n long low = absurd (omega arith)
  percentile-IsAt index (y ∷ ys) xs ordered kept size n long low =
      let same : n ≡ length ys = omega (arith, long) in
      let (v, e, few, many) = ranked (y ∷ ys) xs (index n) ordered kept (omega arith) in
      (v, subst (λ m. get_elem? (y ∷ ys) (index m) ≡ some v) same e, e, (few, many))

  -- The latencies that a run of one operation or more reports: the 50th percentile is not above the 95th,
  -- nor this above the 99th, and each stands at its position among the latencies.
  pub summarize_lem :
      (x : ℤ) (xs : List ℤ)
      → Sorts maths
      → IsOrdered maths (length xs)
      → (lat : Latencies) × (summarize maths (x ∷ xs) ≡ some lat)
        × (lat.p50 ≤ℤ lat.p95)
        × (lat.p95 ≤ℤ lat.p99)
        × IsAt lat.p50 (maths.index_50 (length xs)) (x ∷ xs)
        × IsAt lat.p95 (maths.index_95 (length xs)) (x ∷ xs)
        × IsAt lat.p99 (maths.index_99 (length xs)) (x ∷ xs)
  unfolding summarize
  summarize_lem x xs sorts (low, mid, high) =
      let (ordered, kept) = sorts (x ∷ xs) in
      let s = maths.sort (x ∷ xs) in
      let size : suc (length xs) ≡ length s =
        omega (arith, kept (λ y. 1), total-ones s, total-ones (x ∷ xs)) in
      let a =
        percentile-IsAt maths.index_50 s (x ∷ xs) ordered kept size (length xs) (sym size)
          (omega arith) in
      let b =
        percentile-IsAt maths.index_95 s (x ∷ xs) ordered kept size (length xs) (sym size)
          (omega arith) in
      let c =
        percentile-IsAt maths.index_99 s (x ∷ xs) ordered kept size (length xs) (sym size)
          (omega arith) in
      (
        record { p50 = a.0; p95 = b.0; p99 = c.0; avg = quotient (sum_from (pos 0) s) (length s) },
        rw (a.1, b.1, c.1) refl,
        get_elem?-le s _ _ a.0 b.0 ordered low a.2 b.2,
        get_elem?-le s _ _ b.0 c.0 ordered mid b.2 c.2,
        a.3,
        b.3,
        c.3,
      )
