-- ===== src/Hlc/Order.antt =====
-- `Compare` against the lexicographic order of (wall time, logical counter).
use distributed_key_value_st.Prelude.{◌≡◌, ◌⊎◌, ◌↔◌, true, false, arith}
use distributed_key_value_st.Prelude.Int.{pos, negsuc, ◌<ℤ◌, ◌≤ℤ◌, leb_ℤ, eq_of_parts}
use distributed_key_value_st.Hlc.{Timestamp, compare, before, after, equal, after_or_equal}

abbrev pub Earlier : Timestamp → Timestamp → Type 0
Earlier a b =
    (a.wall_time <ℤ b.wall_time) ⊎ ((a.wall_time ≡ b.wall_time) × (a.logical <ℤ b.logical))

abbrev pub NotLater : Timestamp → Timestamp → Type 0
NotLater a b =
    (a.wall_time <ℤ b.wall_time) ⊎ ((a.wall_time ≡ b.wall_time) × (a.logical ≤ℤ b.logical))

module _ (a b : Timestamp) where
  compare-eq-negsuc_iff : (compare a b ≡ negsuc 0) ↔ Earlier a b
  unfolding compare
  compare-eq-negsuc_iff = ground (arith, eq_of_parts a.wall_time b.wall_time)

  compare-eq-pos_iff : (compare a b ≡ pos 1) ↔ Earlier b a
  unfolding compare
  compare-eq-pos_iff = ground (arith, eq_of_parts a.wall_time b.wall_time)

  compare-eq-zero_iff : (compare a b ≡ pos 0) ↔ (a ≡ b)
  unfolding compare
  compare-eq-zero_iff =
      ground (arith, eq_of_parts a.wall_time b.wall_time, eq_of_parts a.logical b.logical)

  -- `Compare` is -1, 1 or 0 exactly as its first argument is lexicographically earlier, later or
  -- equal.
  pub compare_lem :
      ((compare a b ≡ negsuc 0) ↔ Earlier a b)
      × ((compare a b ≡ pos 1) ↔ Earlier b a)
      × ((compare a b ≡ pos 0) ↔ (a ≡ b))
  compare_lem = (compare-eq-negsuc_iff, compare-eq-pos_iff, compare-eq-zero_iff)

  -- The test `Compare(a, b) <= 0` of the store.
  pub stale_iff : (leb_ℤ (compare a b) (pos 0) ≡ true) ↔ NotLater a b
  unfolding compare
  stale_iff = ground (arith, eq_of_parts a.wall_time b.wall_time)

  pub not_stale_iff : (leb_ℤ (compare a b) (pos 0) ≡ false) ↔ Earlier b a
  unfolding compare
  not_stale_iff = ground (arith, eq_of_parts a.wall_time b.wall_time)

  before_iff : (before a b ≡ true) ↔ Earlier a b
  unfolding before
  before_iff = ground (arith, eq_of_parts a.wall_time b.wall_time)

  after_iff : (after a b ≡ true) ↔ Earlier b a
  unfolding after
  after_iff = ground (arith, eq_of_parts a.wall_time b.wall_time)

  equal_iff : (equal a b ≡ true) ↔ (a ≡ b)
  unfolding equal
  equal_iff = ground (arith, eq_of_parts a.wall_time b.wall_time, eq_of_parts a.logical b.logical)

  pub after_or_equal_iff : (after_or_equal a b ≡ true) ↔ NotLater b a
  unfolding after_or_equal
  after_or_equal_iff = ground (arith, eq_of_parts a.wall_time b.wall_time)

  pub NotLater-total : NotLater a b ⊎ Earlier b a
  NotLater-total = ground (arith, eq_of_parts a.wall_time b.wall_time)

  pub NotLater-antisymm : NotLater a b → NotLater b a → a ≡ b
  NotLater-antisymm h k =
      ground (arith, eq_of_parts a.wall_time b.wall_time, eq_of_parts a.logical b.logical)

  pub NotLater_of_Earlier : Earlier a b → NotLater a b
  NotLater_of_Earlier h = ground arith

pub NotLater-refl : (a : Timestamp) → NotLater a a
NotLater-refl a = ground arith

pub Earlier-irrefl : (a : Timestamp) → ¬ Earlier a a
Earlier-irrefl a h = ground arith

pub NotLater-trans : (a b c : Timestamp) → NotLater a b → NotLater b c → NotLater a c
NotLater-trans a b c h k = ground arith

pub Earlier-trans_right : (a b c : Timestamp) → NotLater a b → Earlier b c → Earlier a c
Earlier-trans_right a b c h k = ground arith

Earlier-trans_left : (a b c : Timestamp) → Earlier a b → NotLater b c → Earlier a c
Earlier-trans_left a b c h k = ground arith
