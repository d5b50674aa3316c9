-- ===== src/Geometry/Scalar.antt =====
-- What geometry.rs and router.rs use of f64. The language has no floats, so the type is a parameter.
use beaglewing.Common.{ℕ, ◌<◌, ◌≡◌, Bool, true, false}

pub record Scalar : Type 1 where
  pub F : Type 0
  pub add : F → F → F
  pub sub : F → F → F
  pub mul : F → F → F
  pub div : F → F → F
  pub lt : F → F → Bool
  pub le : F → F → Bool
  -- the literals 0.0, 1.0, 2.0, 65535.0 and 15.0
  pub zero_f : F
  pub one : F
  pub two : F
  pub canonical_max : F
  pub fifteen : F
  pub eq : F → F → Bool
  -- casts from u32 and from i32, an i32 given by its bit pattern
  pub of_u32 : ℕ → F
  pub of_i32 : ℕ → F
  -- `.trunc() as i32`, as a bit pattern
  pub trunc_i32 : F → ℕ
  -- `.round() as u16`
  pub round_u16 : F → ℕ

-- IEEE comparisons, NaN included, and the saturating cast to u16.
pub record IsOrdered (f : Scalar) : Type 0 where
  pub lt_irrefl : (a : f.F) → f.lt a a ≡ false
  pub le-not_gt : (a b : f.F) → f.le a b ≡ true → f.lt b a ≡ false
  pub canonical_ordered : f.le f.zero_f f.canonical_max ≡ true
  pub round_range : (a : f.F) → f.round_u16 a < 65536
