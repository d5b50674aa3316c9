-- ===== src/Files/Stage.antt =====
-- protocol/clipframe/src/files.rs: `unpack_to_stage` and `cleanup_stage`.
-- What the system and the tar crate answer is given with each call.
use beaglewing.Common.Bytes.{Bytes}
use beaglewing.Common.Sort.{sort}
use beaglewing.Files.Tree.{FilePath, normal, path_le}
use beaglewing.Common.{
  ltb, if◌then◌else◌, ℕ, ◌-◌, Bool, false, Option, none, some, List, [], ◌∷◌, ◌++◌, map,
}

-- `received` is the message that the batch was empty; `io` is another error.
pub data StageError : Type 0 where
  received_empty io : StageError

pub data Staged : Type 0 where
  ok : List FilePath → Staged
  err : StageError → Staged

-- The answers to the creation of the batch directory, to the unpacking into it and to the listing of
-- it; an entry that cannot be read is not among those listed.
pub record Unpacking : Type 0 where
  pub created : Bool
  pub unpacked : Bytes → Bool
  pub listed : Option (List Bytes)

-- the paths of the entries of a directory
unfoldable pub children : FilePath → List Bytes → List FilePath
children d names = map (λ n. d ++ (normal n ∷ [])) names

abbrev top_paths : List FilePath → Staged
top_paths [] = err received_empty
top_paths (p ∷ ps) = ok (p ∷ ps)

abbrev of_listing : FilePath → Option (List Bytes) → Staged
of_listing batch none = err io
of_listing batch (some names) = top_paths (sort path_le (children batch names))

-- `name` is `bw-` and the time in milliseconds.
unfoldable pub unpack_to_stage : Unpacking → Bytes → FilePath → Bytes → Staged
unfolding children
unpack_to_stage u name stage_root tar_bytes =
    let batch = stage_root ++ (normal name ∷ []) in
    if u.created
    then (if u.unpacked tar_bytes then of_listing batch u.listed else err io)
    else err io

-- An entry of the stage, and the time of its last change, if it is known. Times are in
-- milliseconds.
pub record Kept : Type 0 where
  pub path : FilePath
  pub modified : Option ℕ

-- A change in the future has no age.
abbrev age : ℕ → Option ℕ → Option ℕ
age now none = none
age now (some m) = if ltb now m then none else some (now - m)

abbrev exceeds : ℕ → Option ℕ → Bool
exceeds max_age none = false
exceeds max_age (some a) = ltb max_age a

unfoldable pub is_old : ℕ → ℕ → Kept → Bool
is_old now max_age e = exceeds max_age (age now e.modified)

-- The paths that are removed, in the order of the listing.
unfoldable pub cleanup_stage : ℕ → ℕ → Option (List Kept) → List FilePath
unfolding is_old
cleanup_stage now max_age none = []
cleanup_stage now max_age (some []) = []
cleanup_stage now max_age (some (e ∷ es)) =
    let rest = cleanup_stage now max_age (some es) in
    if is_old now max_age e then e.path ∷ rest else rest
