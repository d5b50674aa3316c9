-- ===== src/Bridge/Hid/Bits.antt =====
-- The modifier byte as eight bits: tables over all bytes and bit numbers, checked by evaluation.
use beaglewing.Common.{
  ltb, ◌==◌, every_below, every_below-lookup, ℕ, ◌-◌, ◌/◌, ◌%◌, ◌^◌, ◌<◌, bit_and, bit_or, ◌≡◌,
  refl, Bool, true, false, not, ◌&&◌, ◌||◌, arith,
}

abbrev pub bit_of : ℕ → ℕ → Bool
bit_of m k = m / 2 ^ k % 2 == 1

abbrev same : Bool → Bool → Bool
same true b = b
same false b = not b

-- what setting and clearing bit `k` of `m` does to bit `j`
row : ℕ → ℕ → ℕ → Bool
row m k j =
    (same (bit_of (bit_or m (2 ^ k)) j) (k == j || bit_of m j)
      && same (bit_of (bit_and m (255 - 2 ^ k)) j) (not (k == j) && bit_of m j))
    && (ltb (bit_or m (2 ^ k)) 256 && ltb (bit_and m (255 - 2 ^ k)) 256)

rows : every_below (λ m. every_below (λ k. every_below (λ j. row m k j) 8) 8) 256 ≡ true
unfolding every_below row
rows = refl

row_holds : (m k j : ℕ) → m < 256 → k < 8 → j < 8 → row m k j ≡ true
row_holds m k j hm hk hj =
    every_below-lookup _ _ _ hj (every_below-lookup _ _ _ hk (every_below-lookup _ _ _ hm rows))

same_eq : (a b : Bool) → same a b ≡ true → a ≡ b
same_eq true true h = refl
same_eq true false h = cc
same_eq false true h = cc
same_eq false false h = refl

four_parts :
    (a b c d : Bool)
    → ((a && b) && (c && d)) ≡ true
    → (a ≡ true) × (b ≡ true) × (c ≡ true) × (d ≡ true)
four_parts a b c d h = ground arith

module _ (m k j : ℕ) (hm : m < 256) (hk : k < 8) (hj : j < 8) where
  parts :
      (same (bit_of (bit_or m (2 ^ k)) j) (k == j || bit_of m j) ≡ true)
      × (same (bit_of (bit_and m (255 - 2 ^ k)) j) (not (k == j) && bit_of m j) ≡ true)
      × (ltb (bit_or m (2 ^ k)) 256 ≡ true)
      × (ltb (bit_and m (255 - 2 ^ k)) 256 ≡ true)
  parts = four_parts _ _ _ _ (unfold row in row_holds m k j hm hk hj)

  -- Setting a bit sets that bit alone.
  pub bit_of-set : bit_of (bit_or m (2 ^ k)) j ≡ (k == j || bit_of m j)
  bit_of-set = same_eq _ _ parts.0

  -- Clearing a bit clears that bit alone.
  pub bit_of-clear : bit_of (bit_and m (255 - 2 ^ k)) j ≡ (not (k == j) && bit_of m j)
  bit_of-clear = same_eq _ _ parts.1

module _ (m k : ℕ) (hm : m < 256) (hk : k < 8) where
  pub set_bit-lt : bit_or m (2 ^ k) < 256
  set_bit-lt = ground (arith, parts m k 0 hm hk (omega arith))

  pub clear_bit-lt : bit_and m (255 - 2 ^ k) < 256
  clear_bit-lt = ground (arith, parts m k 0 hm hk (omega arith))
