-- ===== src/Prelude/Lists.antt =====
-- Lists measured by native numbers, under the library's names.
use Prim.Native.Nat.{ℕ, suc, ◌+◌}
use mathlib.Core.Path.{◌≡◌, refl, ap, sym, subst}
use mathlib.Core.Logic.{◌⊎◌, inl, inr}
use mathlib.Core.List.{Memᴰ, List, [], ◌∷◌, ◌++◌, map}
use native.Mathlib.Omega.{arith}

module _ {ℓ} {A : Type ℓ} where
  abbrev pub length : List A → ℕ
  length [] = 0
  length (x ∷ xs) = suc (length xs)

  pub length-append : (xs ys : List A) → length (xs ++ ys) ≡ length xs + length ys
  length-append [] ys = omega arith
  length-append (x ∷ xs) ys = omega (arith, length-append xs ys)

-- A predicate that holds of every element; it computes to tuples.
abbrev pub All {ℓ κ} : {A : Type ℓ} → (A → Type κ) → List A → Type κ
All P [] = Unit
All P (x ∷ xs) = P x × All P xs

module _ {ℓ} {A : Type ℓ} where
  pub mem-append_left : {q : A} {xs : List A} (ys : List A) → Memᴰ q xs → Memᴰ q (xs ++ ys)
  mem-append_left ys (Memᴰ.head e) = Memᴰ.head e
  mem-append_left ys (Memᴰ.tail m) = Memᴰ.tail (mem-append_left ys m)

  pub mem-append_right : {q : A} (xs : List A) {ys : List A} → Memᴰ q ys → Memᴰ q (xs ++ ys)
  mem-append_right [] m = m
  mem-append_right (x ∷ xs) m = Memᴰ.tail (mem-append_right xs m)

  pub mem-middle :
      {q : A} (p : A) (xs ys : List A) → Memᴰ q (xs ++ p ∷ ys) → (q ≡ p) ⊎ Memᴰ q (xs ++ ys)
  mem-middle p [] ys (Memᴰ.head e) = inl e
  mem-middle p [] ys (Memᴰ.tail m) = inr m
  mem-middle p (x ∷ xs) ys (Memᴰ.head e) = inr (Memᴰ.head e)
  mem-middle p (x ∷ xs) ys (Memᴰ.tail m) = elim (mem-middle p xs ys m) [
    | inl e ↦ inl e
    | inr n ↦ inr (Memᴰ.tail n)
  ]

  pub mem-middle_of : {q : A} (p : A) (xs ys : List A) → Memᴰ q (xs ++ ys) → Memᴰ q (xs ++ p ∷ ys)
  mem-middle_of p [] ys m = Memᴰ.tail m
  mem-middle_of p (x ∷ xs) ys (Memᴰ.head e) = Memᴰ.head e
  mem-middle_of p (x ∷ xs) ys (Memᴰ.tail m) = Memᴰ.tail (mem-middle_of p xs ys m)

  pub mem-snoc : {p q : A} (xs : List A) → Memᴰ q (xs ++ p ∷ []) → Memᴰ q xs ⊎ (q ≡ p)
  mem-snoc [] (Memᴰ.head e) = inr e
  mem-snoc [] (Memᴰ.tail m) = elim m [ ]
  mem-snoc (x ∷ xs) (Memᴰ.head e) = inl (Memᴰ.head e)
  mem-snoc (x ∷ xs) (Memᴰ.tail m) = elim (mem-snoc xs m) [
    | inl n ↦ inl (Memᴰ.tail n)
    | inr e ↦ inr e
  ]

module _ {ℓ κ} {A : Type ℓ} (P : A → Type κ) where
  pub All-snoc : (xs : List A) (p : A) → All P xs → P p → All P (xs ++ p ∷ [])
  All-snoc [] p h k = (k, tt)
  All-snoc (x ∷ xs) p h k = (h.0, All-snoc xs p h.1 k)

  pub All-middle : (xs ys : List A) (p : A) → All P (xs ++ p ∷ ys) → P p × All P (xs ++ ys)
  All-middle [] ys p h = h
  All-middle (x ∷ xs) ys p h = let r = All-middle xs ys p h.1 in (r.0, (h.0, r.1))

  pub All-from_mem : (xs : List A) → ((a : A) → Memᴰ a xs → P a) → All P xs
  All-from_mem [] h = tt
  All-from_mem (x ∷ xs) h = (h x (Memᴰ.head refl), All-from_mem xs (λ a m. h a (Memᴰ.tail m)))

  pub All-of_mem : (xs : List A) (a : A) → All P xs → Memᴰ a xs → P a
  All-of_mem (x ∷ xs) a h (Memᴰ.head e) = subst P (sym e) h.0
  All-of_mem (x ∷ xs) a h (Memᴰ.tail m) = All-of_mem xs a h.1 m
  All-of_mem [] a h m = elim m [ ]

module _ {ℓ κ} {A : Type ℓ} {B : Type κ} (f : A → B) where
  pub mem-map : {a : A} {xs : List A} → Memᴰ a xs → Memᴰ (f a) (map f xs)
  mem-map (Memᴰ.head e) = Memᴰ.head (ap f e)
  mem-map (Memᴰ.tail m) = Memᴰ.tail (mem-map m)

  pub mem-map_inv : {b : B} (xs : List A) → Memᴰ b (map f xs) → (a : A) × Memᴰ a xs × (b ≡ f a)
  mem-map_inv [] m = elim m [ ]
  mem-map_inv (x ∷ xs) (Memᴰ.head e) = (x, Memᴰ.head refl, e)
  mem-map_inv (x ∷ xs) (Memᴰ.tail m) = let (a, at, e) = mem-map_inv xs m in (a, Memᴰ.tail at, e)

-- Membership in a list of two.
pub mem-pair {ℓ} : {A : Type ℓ} {q a b : A} → Memᴰ q (a ∷ b ∷ []) → (q ≡ a) ⊎ (q ≡ b)
mem-pair (Memᴰ.head e) = inl e
mem-pair (Memᴰ.tail m) = elim (mem-snoc [] m) [ inl n ↦ elim n [ ] | inr e ↦ inr e ]
