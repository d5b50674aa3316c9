-- ===== src/Common/Sort.antt =====
-- `sort`: the items of a vector in ascending order, by insertion. For a total order all ascending
-- arrangements of the same items agree, so nothing depends on the method.
use mathlib.Core.Path.{◌≡◌, refl}
use mathlib.Core.Bool.{Bool, true, false}
use mathlib.Core.List.{List, [], ◌∷◌, foldr, Perm}
use mathlib.Core.List.Perm
use native.Mathlib.Omega.{arith}
use beaglewing.Common.Booleans.{if◌then◌else◌}

-- The ordering that a Boolean test stands for.
pub record IsTotalOrder {ℓ} {A : Type ℓ} (le : A → A → Bool) : Type ℓ where
  pub total : (a b : A) → le a b ≡ false → le b a ≡ true
  pub antisymm : (a b : A) → le a b ≡ true → le b a ≡ true → a ≡ b
  pub trans : (a b c : A) → le a b ≡ true → le b c ≡ true → le a c ≡ true

module _ {ℓ} {A : Type ℓ} (le : A → A → Bool) where
  unfoldable pub insert : A → List A → List A
  insert x [] = x ∷ []
  insert x (y ∷ ys) = let rest = insert x ys in if le x y then x ∷ y ∷ ys else y ∷ rest

  unfoldable pub sort : List A → List A
  unfolding insert
  sort = foldr insert []

-- The order of lists that compares item by item from the front.
unfoldable pub lex {ℓ} : {A : Type ℓ} → (A → A → Bool) → List A → List A → Bool
lex le [] ys = true
lex le (x ∷ xs) [] = false
lex le (x ∷ xs) (y ∷ ys) =
    let rest = lex le xs ys in if le x y then (if le y x then rest else true) else false

module _ {ℓ} {A : Type ℓ} (le : A → A → Bool) (total : (a b : A) → le a b ≡ false → le b a ≡ true)
    (trans : (a b c : A) → le a b ≡ true → le b c ≡ true → le a c ≡ true) where
  -- Two items change places unless they are different and stand at the same height.
  pub insert_comm :
      (x y : A)
      → (le x y ≡ true → le y x ≡ true → x ≡ y)
      → (l : List A) → insert le x (insert le y l) ≡ insert le y (insert le x l)
  unfolding insert
  insert_comm x y same [] = grind (arith, total x y, same)
  insert_comm x y same (z ∷ l) = grind (arith, insert_comm x y same l, total, same, trans)

module _ {ℓ} {A : Type ℓ} {le : A → A → Bool} (o : IsTotalOrder le) where
  -- The order in which the items come makes no difference.
  pub sort-eq_of_perm : IsSet A → {xs ys : List A} → Perm xs ys → sort le xs ≡ sort le ys
  unfolding sort
  sort-eq_of_perm s p =
      Perm.foldr-eq (hlevel) (insert le)
        (λ x y. insert_comm le o.total o.trans x y (o.antisymm x y)) p []

  lex_antisymm : (xs ys : List A) → lex le xs ys ≡ true → lex le ys xs ≡ true → xs ≡ ys
  unfolding lex
  lex_antisymm [] [] h k = refl
  lex_antisymm [] (y ∷ ys) h k = cc
  lex_antisymm (x ∷ xs) [] h k = cc
  lex_antisymm (x ∷ xs) (y ∷ ys) h k = ground (arith, o.antisymm x y, lex_antisymm xs ys)

  lex_total : (xs ys : List A) → lex le xs ys ≡ false → lex le ys xs ≡ true
  unfolding lex
  lex_total [] ys h = cc
  lex_total (x ∷ xs) [] h = refl
  lex_total (x ∷ xs) (y ∷ ys) h = ground (arith, o.total x y, lex_total xs ys)

  lex_trans : (xs ys zs : List A) → lex le xs ys ≡ true → lex le ys zs ≡ true → lex le xs zs ≡ true
  unfolding lex
  lex_trans [] ys zs h k = refl
  lex_trans (x ∷ xs) [] zs h k = cc
  lex_trans (x ∷ xs) (y ∷ ys) [] h k = cc
  lex_trans (x ∷ xs) (y ∷ ys) (z ∷ zs) h k =
      ground (arith, o.trans x y z, o.trans z x y, o.trans y z x, lex_trans xs ys zs)

  pub lex-IsTotalOrder : IsTotalOrder (lex le)
  lex-IsTotalOrder = record { total = lex_total; antisymm = lex_antisymm; trans = lex_trans }
