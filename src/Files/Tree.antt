-- ===== src/Files/Tree.antt =====
-- protocol/clipframe/src/files.rs: paths, and the file system as the code reads it.
-- A path is the list of its components, as Rust compares and splits them; a name is its bytes.
use beaglewing.Common.Bytes.{Bytes}
use beaglewing.Common.Sort.{IsTotalOrder, lex, lex-IsTotalOrder}
use beaglewing.Common.{leb, ℕ, ◌≡◌, Bool, Option, none, some, List, [], ◌∷◌, arith}

pub data Component : Type 0 where
  root_dir cur_dir parent_dir : Component
  normal : Bytes → Component

abbrev pub FilePath : Type 0
FilePath = List Component

-- `Path::file_name`: the last component, if it is a name.
unfoldable pub file_name : FilePath → Option Bytes
file_name [] = none
file_name (normal n ∷ []) = some n
file_name (c ∷ []) = none
file_name (c ∷ d ∷ rest) = file_name (d ∷ rest)

-- What `metadata` and `read_dir` say of a path, links followed: nothing, a file of a size, a
-- directory that can be listed or not, or something else.
mutual
  pub data Node : Type 0 where
    missing locked special : Node
    file : ℕ → Node
    dir : Entries → Node

  -- The entries of a directory in the order in which the system lists them. An entry that cannot be
  -- read is passed over.
  pub data Entries : Type 0 where
    end : Entries
    entry : Bytes → Node → Entries → Entries

-- The order of components, which `sort` goes by.
key : Component → Bytes
key root_dir = 0 ∷ []
key cur_dir = 1 ∷ []
key parent_dir = 2 ∷ []
key (normal n) = 3 ∷ n

unfoldable pub name_le : Bytes → Bytes → Bool
name_le = lex leb

component_le : Component → Component → Bool
unfolding name_le key
component_le a b = name_le (key a) (key b)

unfoldable pub path_le : FilePath → FilePath → Bool
unfolding component_le
path_le = lex component_le

pub name_le-IsTotalOrder : IsTotalOrder name_le
unfolding name_le
name_le-IsTotalOrder = lex-IsTotalOrder (record {
  total = λ a b h. ground arith;
  antisymm = λ a b h k. ground arith;
  trans = λ a b c h k. ground arith;
})

key-injective : (a b : Component) → key a ≡ key b → a ≡ b
unfolding key
key-injective a b h = ground arith

component_le-IsTotalOrder : IsTotalOrder component_le
unfolding component_le
component_le-IsTotalOrder = record {
  total = λ a b. name_le-IsTotalOrder.total (key a) (key b);
  antisymm = λ a b h k. key-injective a b (name_le-IsTotalOrder.antisymm (key a) (key b) h k);
  trans = λ a b c. name_le-IsTotalOrder.trans (key a) (key b) (key c);
}

pub path_le-IsTotalOrder : IsTotalOrder path_le
unfolding path_le
path_le-IsTotalOrder = lex-IsTotalOrder component_le-IsTotalOrder

pub FilePath-set : IsSet FilePath
FilePath-set = hlevel
