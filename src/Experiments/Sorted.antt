-- ===== src/Experiments/Sorted.antt =====
-- The sort of the samples sorts.
use distributed_key_value_st.Prelude.{
  ℕ, zero, suc, ◌+◌, ◌≤◌, ◌≡◌, refl, List, [], ◌∷◌, arith, length, All,
}
use distributed_key_value_st.Prelude.Int.{ℤ, ◌≤ℤ◌}
use distributed_key_value_st.Experiments.{exchange, pass, sort_loop, exchange_sort}

abbrev pub IsSorted : List ℤ → Type 0
IsSorted [] = Unit
IsSorted (x ∷ xs) = All (λ y. x ≤ℤ y) xs × IsSorted xs

-- The sum of a function's values, which counts the elements of a kind.
abbrev pub total : (ℤ → ℕ) → List ℤ → ℕ
total f [] = 0
total f (x ∷ xs) = f x + total f xs

-- The two lists have the same elements, as often.
abbrev pub Rearranges : List ℤ → List ℤ → Type 0
Rearranges xs ys = (f : ℤ → ℕ) → total f xs ≡ total f ys

exchange-order : (x y : ℤ) → ((exchange x y).0 ≤ℤ x) × ((exchange x y).0 ≤ℤ (exchange x y).1)
unfolding exchange
exchange-order x y = ground arith

exchange-total : (f : ℤ → ℕ) (x y : ℤ) → f (exchange x y).0 + f (exchange x y).1 ≡ f x + f y
unfolding exchange
exchange-total f x y = ground arith

exchange-bound : (m x y : ℤ) → m ≤ℤ x → m ≤ℤ y → (m ≤ℤ (exchange x y).0) × (m ≤ℤ (exchange x y).1)
unfolding exchange
exchange-bound m x y h k = ground arith

pass-total :
    (f : ℤ → ℕ) (x : ℤ) (ys : List ℤ) → f (pass x ys).0 + total f (pass x ys).1 ≡ f x + total f ys
unfolding pass
pass-total f x [] = refl
pass-total f x (y ∷ ys) = omega (arith, pass-total f (exchange x y).0 ys, exchange-total f x y)

length-pass : (x : ℤ) (ys : List ℤ) → length (pass x ys).1 ≡ length ys
unfolding pass
length-pass x [] = refl
length-pass x (y ∷ ys) = omega (arith, length-pass (exchange x y).0 ys)

pass-least :
    (x : ℤ) (ys : List ℤ) → ((pass x ys).0 ≤ℤ x) × All (λ y. (pass x ys).0 ≤ℤ y) (pass x ys).1
unfolding pass
pass-least x [] = (omega arith, tt)
pass-least x (y ∷ ys) =
    let rest = pass-least (exchange x y).0 ys in
    let o = exchange-order x y in (omega (arith, rest.0, o.0), (omega (arith, rest.0, o.1), rest.1))

-- What is at most every element stays so.
pass-bound :
    (m x : ℤ) (ys : List ℤ)
    → m ≤ℤ x
    → All (λ y. m ≤ℤ y) ys
    → (m ≤ℤ (pass x ys).0) × All (λ y. m ≤ℤ y) (pass x ys).1
unfolding pass
pass-bound m x [] h k = (h, tt)
pass-bound m x (y ∷ ys) h k =
    let o = exchange-bound m x y h k.0 in
    let rest = pass-bound m (exchange x y).0 ys o.0 k.1 in (rest.0, (o.1, rest.1))

sort_loop-bound :
    (m : ℤ) (n : ℕ) (xs : List ℤ) → All (λ y. m ≤ℤ y) xs → All (λ y. m ≤ℤ y) (sort_loop n xs)
unfolding sort_loop
sort_loop-bound m zero xs h = h
sort_loop-bound m (suc n) [] h = tt
sort_loop-bound m (suc n) (x ∷ xs) h =
    let r = pass-bound m x xs h.0 h.1 in (r.0, sort_loop-bound m n (pass x xs).1 r.1)

sort_loop-IsSorted : (n : ℕ) (xs : List ℤ) → length xs ≤ n → IsSorted (sort_loop n xs)
unfolding sort_loop
sort_loop-IsSorted zero [] h = tt
sort_loop-IsSorted zero (x ∷ xs) h = absurd (omega arith)
sort_loop-IsSorted (suc n) [] h = tt
sort_loop-IsSorted (suc n) (x ∷ xs) h = (
  sort_loop-bound (pass x xs).0 n (pass x xs).1 (pass-least x xs).1,
  sort_loop-IsSorted n (pass x xs).1 (omega (arith, length-pass x xs)),
)

total-sort_loop : (f : ℤ → ℕ) (n : ℕ) (xs : List ℤ) → total f (sort_loop n xs) ≡ total f xs
unfolding sort_loop
total-sort_loop f zero xs = refl
total-sort_loop f (suc n) [] = refl
total-sort_loop f (suc n) (x ∷ xs) =
    omega (arith, total-sort_loop f n (pass x xs).1, pass-total f x xs)

-- The sort that `percentile` does in place puts its samples in order and keeps each of them.
pub exchange_sort_lem :
    (xs : List ℤ) → IsSorted (exchange_sort xs) × Rearranges (exchange_sort xs) xs
unfolding exchange_sort
exchange_sort_lem xs =
    (sort_loop-IsSorted (length xs) xs (omega arith), λ f. total-sort_loop f (length xs) xs)
