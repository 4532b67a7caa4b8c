-- ===== src/Bench/Config.antt =====
-- bench/workload.go and bench/ycsb_driver.go: how a workload is read and a driver made. Reading the file,
-- YAML and the machine's clock are parameters.
use distributed_key_value_st.Prelude.{
  String, ◌&&◌, Option, none, some, Bool, if◌then◌else◌, ◌==◌, ◌≡◌, ◌≢◌, arith, eq_iff, false, ◌⊎◌,
  inl, inr, subst, Bool-cases, sym, ◌∙◌,
}
use distributed_key_value_st.Prelude.Int.{ℤ, pos, eqb_ℤ}
use distributed_key_value_st.Bench.{Floats, Workload, WorkloadError, validate}
use distributed_key_value_st.Bench.Workloads.{validate-none_iff}

-- The float64 test and constant of `LoadWorkload`.
pub record Zipfian (F : Type 0) : Type 0 where
  pub is_zero : F → Bool
  pub constant : F

-- The two defaults that `LoadWorkload` fills in.
with_prefix : {F : Type 0} → Workload F → Workload F
with_prefix w = if w.key_prefix == "" then record w { key_prefix = "user" } else w

with_constant : {F : Type 0} → Zipfian F → Workload F → Workload F
with_constant z w =
    if w.request_distribution == "zipfian" && z.is_zero w.zipfian_constant
    then record w { zipfian_constant = z.constant }
    else w

fill_defaults : {F : Type 0} → Zipfian F → Workload F → Workload F
unfolding with_prefix with_constant
fill_defaults z w = with_constant z (with_prefix w)

-- What `LoadWorkload` returns: an error of reading or of YAML, or the workload with what `Validate`
-- says.
pub data Loaded (F : Type 0) : Type 0 where
  unreadable : Loaded F
  malformed : Loaded F
  read_as : Workload F → Option WorkloadError → Loaded F

read_in : {F : Type 0} → Floats F → Zipfian F → Option (Workload F) → Loaded F
unfolding fill_defaults
read_in fl z none = malformed
read_in fl z (some w) = let w' = fill_defaults z w in read_as w' (validate fl w')

pub load_workload :
    {F D : Type 0}
    → Floats F
    → Zipfian F
    → (String → Option D)
    → (D → Option (Workload F))
    → String
    → Loaded F
unfolding read_in
load_workload fl z read unmarshal path = elim (read path) [
  | none ↦ unreadable
  | some text ↦ read_in fl z (unmarshal text)
]

-- The seed of `NewDriver`; `now` is the machine's clock in nanoseconds.
unfoldable pub driver_seed : ℤ → ℤ → ℤ
driver_seed now seed = if eqb_ℤ seed (pos 0) then now else seed

user_not_empty : ◌≢◌ {A = String} "user" ""
user_not_empty e = cc

module _ {F : Type 0} (z : Zipfian F) where
  prefix-with_prefix : (w : Workload F) → (with_prefix w).key_prefix ≢ ""
  unfolding with_prefix
  prefix-with_prefix w e = elim (Bool-cases (w.key_prefix == "")) [
    | inl empty ↦ user_not_empty (rw empty at e)
    | inr other ↦ ground (arith, eq_iff w.key_prefix "", rw other at e)
  ]

  prefix-with_constant : (w : Workload F) → (with_constant z w).key_prefix ≡ w.key_prefix
  unfolding with_constant
  prefix-with_constant w = ground arith

  fill_defaults-prefix : (w : Workload F) → (fill_defaults z w).key_prefix ≢ ""
  unfolding fill_defaults
  fill_defaults-prefix w e = prefix-with_prefix w (sym (prefix-with_constant (with_prefix w)) ∙ e)

  with_constant-constant :
      (w : Workload F)
      → z.is_zero z.constant ≡ false
      → (with_constant z w).request_distribution ≡ "zipfian"
      → z.is_zero (with_constant z w).zipfian_constant ≡ false
  unfolding with_constant
  with_constant-constant w ne e = ground (arith, eq_iff w.request_distribution "zipfian")

  fill_defaults-constant :
      (w : Workload F)
      → z.is_zero z.constant ≡ false
      → (fill_defaults z w).request_distribution ≡ "zipfian"
      → z.is_zero (fill_defaults z w).zipfian_constant ≡ false
  unfolding fill_defaults
  fill_defaults-constant w ne e = with_constant-constant (with_prefix w) ne e

-- A workload with a key prefix, which passes validation and whose zipfian constant is not zero if it is
-- used.
abbrev pub IsReady : {F : Type 0} → Floats F → Zipfian F → Workload F → Type 0
IsReady fl z w =
    (w.key_prefix ≢ "")
    × (validate fl w ≡ none)
    × ((w.request_distribution ≡ "uniform")
        ⊎ ((w.request_distribution ≡ "zipfian") × (z.is_zero w.zipfian_constant ≡ false)))

read_as_inv :
    {F : Type 0} {w v : Workload F} {e f : Option WorkloadError}
    → ◌≡◌ {A = Loaded F} (read_as w e) (read_as v f)
    → (w ≡ v) × (e ≡ f)
read_as_inv h = (cc, cc)

module _ {F : Type 0} (fl : Floats F) (z : Zipfian F) (ne : z.is_zero z.constant ≡ false) where
  fill_defaults-IsReady :
      (w : Workload F) → validate fl (fill_defaults z w) ≡ none → IsReady fl z (fill_defaults z w)
  fill_defaults-IsReady w valid = (
    fill_defaults-prefix z w,
    valid,
    elim (((validate-none_iff fl (fill_defaults z w)).0 valid).5) [
      | inl uniform ↦ inl uniform
      | inr zipfian ↦ inr (zipfian, fill_defaults-constant z w ne zipfian)
    ],
  )

  read_in-IsReady :
      (o : Option (Workload F)) {w : Workload F} → read_in fl z o ≡ read_as w none → IsReady fl z w
  unfolding read_in
  read_in-IsReady none h = cc
  read_in-IsReady (some w) h =
      let (same, valid) = read_as_inv h in subst (IsReady fl z) same (fill_defaults-IsReady w valid)

  -- A workload that `LoadWorkload` returns with no error has a key prefix, passes validation as it is,
  -- and under the zipfian distribution, the only one besides the uniform, has a constant other than
  -- zero, if the default one is.
  pub load_workload_lem :
      {D : Type 0} (read : String → Option D) (unmarshal : D → Option (Workload F)) (path : String)
      {w : Workload F}
      → load_workload fl z read unmarshal path ≡ read_as w none
      → IsReady fl z w
  unfolding load_workload
  load_workload_lem {D = D} read unmarshal path h = go (read path) h
    where
      go :
          (o : Option D) {w : Workload F}
          → elim o [ none ↦ unreadable | some text ↦ read_in fl z (unmarshal text) ]
            ≡ read_as w none
          → IsReady fl z w
      go none h = cc
      go (some text) h = read_in-IsReady (unmarshal text) h
