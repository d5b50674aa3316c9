-- ===== src/Files/Batch/Order.antt =====
-- The order of the paths and that of the directories' listings make no difference.
use mathlib.Core.Path.{fun_ext}
use mathlib.Core.List.{Perm}
use beaglewing.Common.Bytes.{Bytes}
use beaglewing.Common.Sort.{sort, insert_comm, sort-eq_of_perm}
use beaglewing.Files.Tree.{
  FilePath, Node, dir, Entries, end, entry, name_le-IsTotalOrder, path_le-IsTotalOrder,
  FilePath-set,
}
use beaglewing.Files.Batch.{
  Walked, join, collect, by_name, results, walk, walk_entries, walk_path, walk_all, batch_signature,
}
use beaglewing.Common.{◌≡◌, refl, ap, ◌∙◌, ◌≢◌, Option, List, []}

-- The same files and directories, whose entries the system may list in another order. The entries
-- of a directory have different names.
mutual
  pub data SameNode : Node → Node → Type 0 where
    same : (n : Node) → SameNode n n
    relisted : {es gs : Entries} → SameEntries es gs → SameNode (dir es) (dir gs)

  pub data SameEntries : Entries → Entries → Type 0 where
    nothing : SameEntries end end
    keep :
        {n m : Node} {es gs : Entries} (name : Bytes)
        → SameNode n m
        → SameEntries es gs
        → SameEntries (entry name n es) (entry name m gs)
    exchange :
        {n m : Node} {es : Entries} (a b : Bytes)
        → a ≢ b
        → SameEntries (entry a n (entry b m es)) (entry b m (entry a n es))
    then_by : {es gs hs : Entries} → SameEntries es gs → SameEntries gs hs → SameEntries es hs

module _ (lossy : Bytes → Bytes) where
  mutual
    unfolding walk sort

    walk-SameNode :
        {n m : Node}
        → SameNode n m
        → (name prefix : Bytes) → walk lossy n name prefix ≡ walk lossy m name prefix
    walk-SameNode (same n) name prefix = refl
    walk-SameNode (relisted s) name prefix =
        ap (λ (z : List (Bytes × Option Walked)). collect [] 0 (results z))
          (sort-SameEntries s (join prefix name))

    sort-SameEntries :
        {es gs : Entries}
        → SameEntries es gs
        → (rel : Bytes)
        → sort by_name (walk_entries lossy es rel) ≡ sort by_name (walk_entries lossy gs rel)
    sort-SameEntries nothing rel = refl
    sort-SameEntries (keep {n} {m} {es} {gs} name s t) rel =
        rw (walk-SameNode s (lossy name) rel, sort-SameEntries t rel) refl
    sort-SameEntries (exchange {n} {m} {es} a b ne) rel =
        insert_comm by_name (λ x y. name_le-IsTotalOrder.total x.0 y.0)
          (λ x y z. name_le-IsTotalOrder.trans x.0 y.0 z.0) (a, walk lossy n (lossy a) rel)
          (b, walk lossy m (lossy b) rel)
          (λ h k. absurd (ne (name_le-IsTotalOrder.antisymm a b h k)))
          (sort by_name (walk_entries lossy es rel))
    sort-SameEntries (then_by s t) rel = sort-SameEntries s rel ∙ sort-SameEntries t rel

  -- The signature and the total of a batch depend neither on the order of its paths nor on the
  -- order in which the system lists the directories below them.
  pub batch_signature-SameNode :
      (fs gs : FilePath → Node) {ps qs : List FilePath}
      → ((p : FilePath) → SameNode (fs p) (gs p))
      → Perm ps qs
      → batch_signature lossy fs ps ≡ batch_signature lossy gs qs
  unfolding batch_signature walk_all walk_path
  batch_signature-SameNode fs gs s p =
      let e : walk_path lossy fs ≡ walk_path lossy gs = fun_ext (λ q. walk-SameNode (s q) _ []) in
      let k = sort-eq_of_perm path_le-IsTotalOrder FilePath-set p in rw (e, k) refl
