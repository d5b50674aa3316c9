-- ===== src/Files/Pack.antt =====
-- protocol/clipframe/src/files.rs: `pack`.
-- The tar crate is outside: `Tar` is its `Builder`.
pub mod Refusals
use beaglewing.Common.Bytes.{Bytes}
use beaglewing.Files.Batch.{batch_signature}
use beaglewing.Files.Tree.{FilePath, file_name, Node, missing, locked, dir}
use beaglewing.Common.{ltb, if◌then◌else◌, ℕ, ◌*◌, ◌/◌, Option, none, some, List, [], ◌∷◌}

-- The errors of `pack`. `over_cap` has the megabytes of the batch and of the cap; `io` stands for
-- what the system or the tar crate reports.
pub data PackError : Type 0 where
  unreadable no_basename io : PackError
  over_cap : ℕ → ℕ → PackError

pub data Packed {ℓ} (A : Type ℓ) : Type ℓ where
  ok : A → Packed A
  err : PackError → Packed A

-- A builder that follows links, and what its operations return.
pub record Tar (B : Type 0) : Type 0 where
  pub empty : B
  pub append_dir_all : Bytes → FilePath → B → Option B
  pub append_path_with_name : FilePath → Bytes → B → Option B
  pub into_inner : B → Option Bytes

abbrev pub or_io : {A : Type 0} → Option A → Packed A
or_io none = err io
or_io (some a) = ok a

abbrev pub then_rest : {B : Type 0} → Packed B → (B → Packed Bytes) → Packed Bytes
then_rest (err e) rest = err e
then_rest (ok b) rest = rest b

abbrev pub within : ℕ → ℕ → Packed Bytes → Packed Bytes
within cap total archive =
    if ltb cap total then err (over_cap (total / (1024 * 1024)) (cap / (1024 * 1024))) else archive

abbrev pub checked : Option (ℕ × ℕ) → ℕ → Packed Bytes → Packed Bytes
checked none cap archive = err unreadable
checked (some (sig, total)) cap archive = within cap total archive

module _ {B : Type 0} (lossy : Bytes → Bytes) (fs : FilePath → Node) (tar : Tar B) where
  unfoldable pub append_node : Node → Bytes → FilePath → B → Packed B
  append_node missing name p b = err io
  append_node (dir es) name p b = or_io (tar.append_dir_all name p b)
  append_node locked name p b = or_io (tar.append_dir_all name p b)
  append_node n name p b = or_io (tar.append_path_with_name p name b)

  unfoldable pub append_named : Option Bytes → FilePath → B → Packed B
  unfolding append_node
  append_named none p b = err no_basename
  append_named (some n) p b = append_node (fs p) (lossy n) p b

  -- the loop over the paths, and the end of the archive
  unfoldable pub append_all : List FilePath → B → Packed Bytes
  unfolding append_named
  append_all [] b = or_io (tar.into_inner b)
  append_all (p ∷ ps) b = then_rest (append_named (file_name p) p b) (append_all ps)

  unfoldable pub pack : List FilePath → ℕ → Packed Bytes
  unfolding append_all
  pack paths cap = checked (batch_signature lossy fs paths) cap (append_all paths tar.empty)
