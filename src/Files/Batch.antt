-- ===== src/Files/Batch.antt =====
-- protocol/clipframe/src/files.rs: `walk`, `batch_signature` and `pack`.
-- `fs` is the file system while a batch is read. `lossy` is `to_string_lossy` on the bytes of a
-- name. Sizes are u64 values.
pub mod Totals
pub mod Order
use beaglewing.Clipframe.Signature.{list_signature}
use beaglewing.Common.Bytes.{Bytes}
use beaglewing.Common.Sort.{sort}
use beaglewing.Files.Tree.{
  FilePath, file_name, Node, missing, locked, special, file, dir, Entries, end, entry, name_le,
  path_le,
}
use beaglewing.Common.{◌>>=◌, ℕ, ◌+◌, ◌%◌, ◌^◌, Bool, Option, none, some, List, [], ◌∷◌, ◌++◌, map}

-- What a walk pushes on `out`, and the total that it returns; the source's error is none.
abbrev pub Walked : Type 0
Walked = List (Bytes × ℕ) × ℕ

-- `rel`, for a prefix and a name
unfoldable pub join : Bytes → Bytes → Bytes
join [] name = name
join (b ∷ prefix) name = (b ∷ prefix) ++ (47 ∷ name)

-- The loops that walk one after the other and stop at an error: `out` and `total` so far.
unfoldable pub collect : List (Bytes × ℕ) → ℕ → List (Option Walked) → Option Walked
collect out total [] = some (out, total)
collect out total (none ∷ walks) = none
collect out total (some (items, size) ∷ walks) =
    collect (out ++ items) ((total + size) % 2 ^ 64) walks

-- the results of the children, by their names
abbrev pub by_name : (Bytes × Option Walked) → (Bytes × Option Walked) → Bool
by_name a b = name_le a.0 b.0

abbrev pub results : List (Bytes × Option Walked) → List (Option Walked)
results = map (λ a. a.1)

module _ (lossy : Bytes → Bytes) where
  -- The walk over what stands at a path with this name. The children are sorted once they are
  -- walked, which makes no difference: a walk changes nothing.
  unfoldable mutual
    unfolding join collect

    pub walk : Node → Bytes → Bytes → Option Walked
    walk missing name prefix = none
    walk locked name prefix = none
    walk special name prefix = some ([], 0)
    walk (file size) name prefix = some ((join prefix name, size) ∷ [], size)
    walk (dir es) name prefix =
        collect [] 0 (results (sort by_name (walk_entries es (join prefix name))))

    pub walk_entries : Entries → Bytes → List (Bytes × Option Walked)
    walk_entries end rel = []
    walk_entries (entry name node es) rel = (name, walk node (lossy name) rel) ∷ walk_entries es rel

  module _ (fs : FilePath → Node) where
    abbrev name_of : Option Bytes → Bytes
    name_of none = []
    name_of (some n) = lossy n

    unfoldable pub walk_path : FilePath → Option Walked
    unfolding walk
    walk_path p = walk (fs p) (name_of (file_name p)) []

    unfoldable pub walk_all : List FilePath → Option Walked
    unfolding walk_path collect
    walk_all paths = collect [] 0 (map walk_path (sort path_le paths))

    unfoldable pub batch_signature : List FilePath → Option (ℕ × ℕ)
    unfolding walk_all
    batch_signature paths = do (items, total) ← walk_all paths; some (list_signature items, total)
