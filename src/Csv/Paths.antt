-- ===== src/Csv/Paths.antt =====
-- What the directory of a path is.
use distributed_key_value_st.Prelude.{
  ℕ, zero, suc, ◌≤◌, ◌<◌, ◌&&◌, ◌≡◌, ◌≢◌, ◌⊎◌, inl, inr, refl, subst, ap, ◌∙◌, List, [], ◌∷◌, ◌++◌,
  arith, append_assoc, length, leb, All, All-snoc, Bool-cases,
}
use distributed_key_value_st.Csv.{take, is_slash, dir_loop, dir_of}

abbrev pub HasNoSlash : List ℕ → Type 0
HasNoSlash = All (λ (b : ℕ). b ≢ 47)

take-suc :
    (path : List ℕ) (i : ℕ)
    → i < length path
    → (b : ℕ) × (take (suc i) path ≡ take i path ++ b ∷ [])
      × (is_slash path i ≡ (leb b 47 && leb 47 b))
unfolding take is_slash
take-suc [] i h = absurd (omega arith)
take-suc (b ∷ path) zero h = (b, refl, refl)
take-suc (b ∷ path) (suc i) h =
    let (c, e, f) = take-suc path i (omega arith) in (c, ap (◌∷◌ b) e, f)

take-length : (path : List ℕ) → take (length path) path ≡ path
unfolding take
take-length [] = refl
take-length (b ∷ path) = ap (◌∷◌ b) (take-length path)

-- The path is the directory, a slash and a name with no slash, or has no slash and the directory is ".".
abbrev pub IsDirOf : List ℕ → List ℕ → Type 0
IsDirOf dir path =
    ((name : List ℕ) × (path ≡ dir ++ 47 ∷ name) × HasNoSlash name)
    ⊎ ((dir ≡ 46 ∷ []) × HasNoSlash path)

IsDirOf-snoc :
    (dir path : List ℕ) (b : ℕ) → b ≢ 47 → IsDirOf dir path → IsDirOf dir (path ++ b ∷ [])
IsDirOf-snoc dir path b ne (inl (name, e, clear)) = inl (
  name ++ b ∷ [],
  ap (λ p. p ++ b ∷ []) e ∙ append_assoc dir (47 ∷ name) (b ∷ []),
  All-snoc (λ c. c ≢ 47) name b clear ne,
)
IsDirOf-snoc dir path b ne (inr (e, clear)) = inr (e, All-snoc (λ c. c ≢ 47) path b clear ne)

dir_loop_lem : (path : List ℕ) (i : ℕ) → i ≤ length path → IsDirOf (dir_loop path i) (take i path)
unfolding dir_loop take
dir_loop_lem path zero h = inr (refl, tt)
dir_loop_lem path (suc i) h =
    let (b, e, f) = take-suc path i (omega arith) in
    elim (Bool-cases (is_slash path i)) [
      | inl slash ↦ rw slash (inl ([], e ∙ ap (λ c. take i path ++ c ∷ []) (ground arith), tt))
      | inr other ↦
          rw (other, e)
            (IsDirOf-snoc (dir_loop path i) (take i path) b (λ s. ground arith)
              (dir_loop_lem path i (omega arith)))
    ]

-- The directory of a path is what stands before its last slash, and "." if it has none.
pub dir_of_lem : (path : List ℕ) → IsDirOf (dir_of path) path
unfolding dir_of
dir_of_lem path =
    subst (IsDirOf (dir_loop path (length path))) (take-length path)
      (dir_loop_lem path (length path) (omega arith))
