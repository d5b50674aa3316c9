-- ===== src/Files/Batch/Totals.antt =====
-- The total of a batch, and when a batch has no signature.
use beaglewing.Common.Bytes.{Bytes}
use beaglewing.Common.Sort.{sort, insert}
use beaglewing.Files.Tree.{FilePath, Node, missing, locked, special, file, dir, Entries, end, entry}
use beaglewing.Files.Batch.{
  walk_all, walk_path, batch_signature, path_le, walk_entries, by_name, results, join, walk, Walked,
  collect,
}
use beaglewing.Common.{
  ℕ, ◌+◌, ◌%◌, ◌^◌, ◌<◌, ◌≡◌, refl, ap, ◌∙◌, Bool, Option, none, some, List, [], ◌∷◌, ◌++◌, map,
  arith,
}

-- none if one of the two is
abbrev pub plus : Option ℕ → Option ℕ → Option ℕ
plus none b = none
plus (some a) none = none
plus (some a) (some b) = some (a + b)

abbrev pub wrapped : Option ℕ → Option ℕ
wrapped none = none
wrapped (some n) = some (n % 2 ^ 64)

-- The size of what stands somewhere, as a mathematical number: the sum over the files in it; none
-- if there is something in it that cannot be read.
unfoldable mutual
  pub size_of : Node → Option ℕ
  size_of missing = none
  size_of locked = none
  size_of special = some 0
  size_of (file size) = some size
  size_of (dir es) = sizes_of es

  pub sizes_of : Entries → Option ℕ
  sizes_of end = some 0
  sizes_of (entry name node es) = plus (size_of node) (sizes_of es)

unfoldable pub batch_size : (FilePath → Node) → List FilePath → Option ℕ
unfolding size_of
batch_size fs [] = some 0
batch_size fs (p ∷ ps) = plus (size_of (fs p)) (batch_size fs ps)

abbrev pub total_of {ℓ} : {A : Type ℓ} → Option (A × ℕ) → Option ℕ
total_of none = none
total_of (some (a, total)) = some total

sum_all : List (Option Walked) → Option ℕ
sum_all [] = some 0
sum_all (w ∷ ws) = plus (total_of w) (sum_all ws)

plus_comm : (a b c : Option ℕ) → plus a (plus b c) ≡ plus b (plus a c)
plus_comm a b c = ground arith

collect-sum :
    (ws : List (Option Walked)) (out : List (Bytes × ℕ)) (total : ℕ)
    → total < 2 ^ 64
    → total_of (collect out total ws) ≡ wrapped (plus (some total) (sum_all ws))
unfolding collect sum_all
collect-sum [] out total h = ground arith
collect-sum (none ∷ ws) out total h = refl
collect-sum (some (items, size) ∷ ws) out total h =
    collect-sum ws (out ++ items) ((total + size) % 2 ^ 64) (omega arith) ∙ ground arith

sum_all-insert :
    {A : Type 0} (le : (A × Option Walked) → (A × Option Walked) → Bool) (x : A × Option Walked)
    (l : List (A × Option Walked))
    → sum_all (map (λ a. a.1) (insert le x l)) ≡ plus (total_of x.1) (sum_all (map (λ a. a.1) l))
unfolding sum_all insert
sum_all-insert le x [] = refl
sum_all-insert le x (y ∷ l) = ground (
  arith,
  sum_all-insert le x l,
  plus_comm (total_of x.1) (total_of y.1) (sum_all (map (λ a. a.1) l)),
)

sum_all-sort :
    {A : Type 0} (le : (A × Option Walked) → (A × Option Walked) → Bool)
    (l : List (A × Option Walked))
    → sum_all (map (λ a. a.1) (sort le l)) ≡ sum_all (map (λ a. a.1) l)
unfolding sum_all sort
sum_all-sort le [] = refl
sum_all-sort le (x ∷ l) =
    sum_all-insert le x (sort le l) ∙ ap (plus (total_of x.1)) (sum_all-sort le l)

-- A size counts as much as what it is modulo 2 ^ 64.
wrapped-plus :
    (a b c d : Option ℕ)
    → wrapped a ≡ wrapped c
    → wrapped b ≡ wrapped d
    → wrapped (plus a b) ≡ wrapped (plus c d)
wrapped-plus a b c d h k = ground arith

module _ (lossy : Bytes → Bytes) where
  mutual
    unfolding walk size_of sum_all

    walk-size :
        (n : Node) (name prefix : Bytes)
        → wrapped (total_of (walk lossy n name prefix)) ≡ wrapped (size_of n)
    walk-size missing name prefix = refl
    walk-size locked name prefix = refl
    walk-size special name prefix = refl
    walk-size (file size) name prefix = refl
    walk-size (dir es) name prefix =
        let rel = join prefix name in
        let e =
          collect-sum (results (sort by_name (walk_entries lossy es rel))) [] 0 (omega arith) in
        let k = sum_all-sort by_name (walk_entries lossy es rel) in
        rw (e, k) (ground (arith, walk_entries-size es rel))

    walk_entries-size :
        (es : Entries) (rel : Bytes)
        → wrapped (sum_all (results (walk_entries lossy es rel))) ≡ wrapped (sizes_of es)
    walk_entries-size end rel = refl
    walk_entries-size (entry name n es) rel =
        wrapped-plus (total_of (walk lossy n (lossy name) rel)) _ (size_of n) _
          (walk-size n (lossy name) rel) (walk_entries-size es rel)

  module _ (fs : FilePath → Node) where
    walk_all-sum :
        (ps : List FilePath)
        → wrapped (sum_all (map (walk_path lossy fs) ps)) ≡ wrapped (batch_size fs ps)
    unfolding sum_all batch_size walk_path
    walk_all-sum [] = refl
    walk_all-sum (p ∷ ps) =
        wrapped-plus (total_of (walk_path lossy fs p)) _ (size_of (fs p)) _ (walk-size (fs p) _ [])
          (walk_all-sum ps)

    batch_size-insert :
        (p : FilePath) (ps : List FilePath)
        → batch_size fs (insert path_le p ps) ≡ plus (size_of (fs p)) (batch_size fs ps)
    unfolding batch_size insert
    batch_size-insert p [] = refl
    batch_size-insert p (q ∷ ps) = ground (
      arith,
      batch_size-insert p ps,
      plus_comm (size_of (fs p)) (size_of (fs q)) (batch_size fs ps),
    )

    batch_size-sort : (ps : List FilePath) → batch_size fs (sort path_le ps) ≡ batch_size fs ps
    unfolding batch_size sort
    batch_size-sort [] = refl
    batch_size-sort (p ∷ ps) =
        batch_size-insert p (sort path_le ps) ∙ ap (plus (size_of (fs p))) (batch_size-sort ps)

    -- A batch has a signature exactly when all that is in it can be read, and its total is then the
    -- sum of the sizes of all files in it, modulo 2 ^ 64.
    pub batch_signature-size :
        (ps : List FilePath) → total_of (batch_signature lossy fs ps) ≡ wrapped (batch_size fs ps)
    unfolding batch_signature walk_all
    batch_signature-size ps =
        let e = collect-sum (map (walk_path lossy fs) (sort path_le ps)) [] 0 (omega arith) in
        let k = walk_all-sum (sort path_le ps) in
        let z = batch_size-sort ps in ground (arith, e, k, z)
