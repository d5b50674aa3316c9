-- ===== src/Common/Chunks.antt =====
-- The chunks of a slice are short enough, and together are the slice.
use beaglewing.Common.Lists.{
  length, take, drop, All, chunks_fuel, chunks, length-take, length-drop, take-append-drop,
}
use mathlib.Core.List.{List, [], ◌∷◌, ◌++◌, flatten}
use mathlib.Core.Path.{◌≡◌, refl, ap, ◌∙◌}
use native.Mathlib.Omega.{arith}
use Prim.Native.Nat.{ℕ, zero, suc, ◌≤◌, ◌<◌}

module _ {ℓ} {A : Type ℓ} (n : ℕ) where
  chunks_fuel-All-length : (f : ℕ) (xs : List A) → All (λ c. length c ≤ n) (chunks_fuel f n xs)
  unfolding chunks_fuel
  chunks_fuel-All-length zero xs = tt
  chunks_fuel-All-length (suc f) [] = tt
  chunks_fuel-All-length (suc f) (x ∷ xs) =
      (omega (arith, length-take n (x ∷ xs)), chunks_fuel-All-length f (drop n (x ∷ xs)))

  pub chunks-All-length : (xs : List A) → All (λ c. length c ≤ n) (chunks n xs)
  unfolding chunks
  chunks-All-length xs = chunks_fuel-All-length (length xs) xs

  flatten-chunks_fuel :
      (f : ℕ) (xs : List A) → 0 < n → length xs ≤ f → flatten (chunks_fuel f n xs) ≡ xs
  unfolding chunks_fuel flatten
  flatten-chunks_fuel zero [] pos h = refl
  flatten-chunks_fuel zero (x ∷ xs) pos h = absurd (omega arith)
  flatten-chunks_fuel (suc f) [] pos h = refl
  flatten-chunks_fuel (suc f) (x ∷ xs) pos h =
      ap (◌++◌ (take n (x ∷ xs)))
        (flatten-chunks_fuel f (drop n (x ∷ xs)) pos (omega (arith, length-drop n (x ∷ xs))))
      ∙ take-append-drop n (x ∷ xs)

  pub flatten-chunks : (xs : List A) → 0 < n → flatten (chunks n xs) ≡ xs
  unfolding chunks
  flatten-chunks xs pos = flatten-chunks_fuel (length xs) xs pos (omega arith)

  length-chunks_fuel-le : (f : ℕ) (xs : List A) → length (chunks_fuel f n xs) ≤ f
  unfolding chunks_fuel
  length-chunks_fuel-le zero xs = omega arith
  length-chunks_fuel-le (suc f) [] = omega arith
  length-chunks_fuel-le (suc f) (x ∷ xs) = omega (arith, length-chunks_fuel-le f (drop n (x ∷ xs)))

  pub length-chunks-le : (xs : List A) → length (chunks n xs) ≤ length xs
  unfolding chunks
  length-chunks-le xs = length-chunks_fuel-le (length xs) xs
