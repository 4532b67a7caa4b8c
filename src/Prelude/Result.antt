-- ===== src/Prelude/Result.antt =====
-- The program's `error` values, and results that carry one: `(T, error)` in the source.
pub data Error : Type 0 where
  logical_overflow : Error
  invalid_logical : Error
  quorum_not_reached : Error
  not_converged : Error
  context_done : Error

pub data Result {ℓ} (A : Type ℓ) : Type ℓ where
  ok : A → Result A
  err : Error → Result A
