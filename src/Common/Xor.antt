-- ===== src/Common/Xor.antt =====
-- The exclusive or of two machine integers is one.
use Prim.Native.Nat.{
  ℕ, zero, suc, ◌/◌, ◌%◌, ◌^◌, ◌<◌, ◌≤◌, bit_xor, digits, differ, bit_xor-bitwise,
}
use native.Mathlib.Omega.{arith}

differ-le : (a b : ℕ) → a < 2 → b < 2 → differ a b ≤ 1
differ-le zero b h k = omega arith
differ-le (suc zero) zero h k = omega arith
differ-le (suc zero) (suc zero) h k = omega arith
differ-le (suc zero) (suc (suc b)) h k = absurd (omega arith)
differ-le (suc (suc a)) b h k = absurd (omega arith)

digits-lt : (k n a b : ℕ) → a < 2 ^ k → b < 2 ^ k → digits (λ b. b) differ n a b < 2 ^ k
digits-lt k zero a b h hb = hb
digits-lt k (suc n) zero b h hb = hb
digits-lt zero (suc n) (suc a) b h hb = absurd (omega arith)
digits-lt (suc k) (suc n) (suc a) b h hb = omega (
  arith,
  digits-lt k n (suc a / 2) (b / 2) (omega arith) (omega arith),
  differ-le (suc a % 2) (b % 2) (omega arith) (omega arith),
)

pub bit_xor-lt : (k a b : ℕ) → a < 2 ^ k → b < 2 ^ k → bit_xor a b < 2 ^ k
bit_xor-lt k a b h hb = omega (arith, digits-lt k a a b h hb, bit_xor-bitwise a b)
