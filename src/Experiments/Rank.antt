-- ===== src/Experiments/Rank.antt =====
-- Which sample the percentile is.
use distributed_key_value_st.Prelude.{
  ℕ, zero, suc, ◌+◌, ◌≤◌, ◌<◌, ◌≡◌, refl, subst, some, some_inv, List, [], ◌∷◌, arith, length, All,
  if◌then◌else◌,
}
use distributed_key_value_st.Prelude.Int.{ℤ, leb_ℤ, ◌≤ℤ◌}
use distributed_key_value_st.Experiments.{exchange_sort, get_elem?, percentile}
use distributed_key_value_st.Experiments.Sorted.{IsSorted, Rearranges, total, exchange_sort_lem}

-- How many of the samples are at most `v`, and at least `v`.
abbrev pub up_to : ℤ → List ℤ → ℕ
up_to v = total (λ y. if leb_ℤ y v then 1 else 0)

abbrev pub from : ℤ → List ℤ → ℕ
from v = total (λ y. if leb_ℤ v y then 1 else 0)

from-All : (v : ℤ) (xs : List ℤ) → All (λ y. v ≤ℤ y) xs → from v xs ≡ length xs
from-All v [] h = refl
from-All v (x ∷ xs) h = ground (arith, from-All v xs h.1)

get_elem?-All :
    (m : ℤ) (xs : List ℤ) (k : ℕ) (v : ℤ) → All (λ y. m ≤ℤ y) xs → get_elem? xs k ≡ some v → m ≤ℤ v
unfolding get_elem?
get_elem?-All m [] k v h e = cc
get_elem?-All m (x ∷ xs) zero v h e = subst (λ y. m ≤ℤ y) (some_inv e) h.0
get_elem?-All m (x ∷ xs) (suc k) v h e = get_elem?-All m xs k v h.1 e

-- The element of a sorted list at a position, and its rank.
get_elem?-rank :
    (xs : List ℤ) (k : ℕ)
    → IsSorted xs
    → k < length xs
    → (v : ℤ) × (get_elem? xs k ≡ some v) × (k < up_to v xs) × (length xs ≤ k + from v xs)
unfolding get_elem?
get_elem?-rank [] k s h = absurd (omega arith)
get_elem?-rank (x ∷ xs) zero s h = (x, refl, ground arith, ground (arith, from-All x xs s.0))
get_elem?-rank (x ∷ xs) (suc k) s h =
    let (v, e, low, high) = get_elem?-rank xs k s.1 (omega arith) in
    (v, e, ground (arith, get_elem?-All x xs k v s.0 e), ground arith)

pub total-ones : (xs : List ℤ) → total (λ y. 1) xs ≡ length xs
total-ones [] = refl
total-ones (x ∷ xs) = omega (arith, total-ones xs)

-- The element at a position of the sorted samples, and its rank among the samples.
pub ranked :
    (s xs : List ℤ) (k : ℕ)
    → IsSorted s
    → Rearranges s xs
    → k < length xs
    → (v : ℤ) × (get_elem? s k ≡ some v) × (k < up_to v xs) × (length xs ≤ k + from v xs)
ranked s xs k ordered kept h =
    let size = kept (λ y. 1) in
    let (v, e, low, high) =
      get_elem?-rank s k ordered (omega (arith, size, total-ones xs, total-ones s)) in
    (
      v,
      e,
      omega (arith, low, kept (λ y. if leb_ℤ y v then 1 else 0)),
      omega
          (arith, high, size, total-ones xs, total-ones s, kept (λ y. if leb_ℤ v y then 1 else 0)),
    )

pub get_elem?-le :
    (xs : List ℤ) (i j : ℕ) (a b : ℤ)
    → IsSorted xs
    → i ≤ j
    → get_elem? xs i ≡ some a
    → get_elem? xs j ≡ some b
    → a ≤ℤ b
unfolding get_elem?
get_elem?-le [] i j a b s h e f = cc
get_elem?-le (x ∷ xs) zero zero a b s h e f = ground arith
get_elem?-le (x ∷ xs) zero (suc j) a b s h e f =
    subst (λ y. y ≤ℤ b) (some_inv e) (get_elem?-All x xs j b s.0 f)
get_elem?-le (x ∷ xs) (suc i) zero a b s h e f = absurd (omega arith)
get_elem?-le (x ∷ xs) (suc i) (suc j) a b s h e f = get_elem?-le xs i j a b s.1 (omega arith) e f

-- Of `n + 1` samples the percentile whose position is `k`, at most `n`, is a value that more than `k`
-- samples do not exceed, while all but `k` samples are at least as large.
pub percentile_lem :
    (index : ℕ → ℕ) (x : ℤ) (xs : List ℤ)
    → index (length xs) ≤ length xs
    → (v : ℤ) × (percentile index (x ∷ xs) ≡ some v)
      × (index (length xs) < up_to v (x ∷ xs))
      × (length (x ∷ xs) ≤ index (length xs) + from v (x ∷ xs))
unfolding percentile
percentile_lem index x xs h =
    let (ordered, kept) = exchange_sort_lem (x ∷ xs) in
    ranked (exchange_sort (x ∷ xs)) (x ∷ xs) (index (length xs)) ordered kept (omega (arith, h))
