-- ===== src/Float.antt =====
-- Go's `float64` and the functions of its package `math` that the program calls, which are not part
-- of the program: a type with operations, taken as a parameter by every definition that computes
-- with fares or coordinates.
use rides_api.Base.{ℕ, Bool}

-- `of_int n` is `float64(n)` of an int that is not negative, `literal n d` the constant n / d.
pub record Float64 (F : Type 0) : Type 0 where
  pub of_int : ℕ → F
  pub literal : ℕ → ℕ → F
  pub add : F → F → F
  pub sub : F → F → F
  pub mul : F → F → F
  pub div : F → F → F
  pub lt : F → F → Bool
  pub le : F → F → Bool
  pub eq : F → F → Bool
  pub sin : F → F
  pub cos : F → F
  pub sqrt : F → F
  pub atan2 : F → F → F
  pub pi : F
  -- `-x`
  pub neg : F → F
