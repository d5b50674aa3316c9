-- ===== src/Tests/Batches.antt =====
-- Runs of protocol/clipframe/src/files.rs, and its theorems at concrete data.
use mathlib.Core.List.Perm
use beaglewing.Clipframe.Defs.{max_payload, max_transfer}
use beaglewing.Clipframe.Encode.{encode_transfer}
use beaglewing.Clipframe.Reassembler.{error, too_large, end_without_start, feed_all}
use beaglewing.Clipframe.Reassembler.Refused.{errors_for, feed_all-too_large}
use beaglewing.Common.Bytes.{Bytes}
use beaglewing.Common.Sort.{sort, insert, lex}
use beaglewing.Files.Batch.{batch_signature, walk_all, walk, walk_path, collect}
use beaglewing.Files.Batch.Order.{SameNode, same, relisted, exchange, batch_signature-SameNode}
use beaglewing.Files.Batch.Totals.{batch_size, total_of, wrapped, batch_signature-size}
use beaglewing.Files.Pack.{Tar, pack}
use beaglewing.Files.Pack.Refusals.{IsPacked, pack-IsPacked}
use beaglewing.Files.Stage.{cleanup_stage}
use beaglewing.Files.Tree.{
  FilePath, file_name, root_dir, normal, Node, missing, file, dir, Entries, end, entry, name_le,
  path_le,
}
use beaglewing.Tests.Transfers.{busy}
use beaglewing.Common.{
  ◌==◌, if◌then◌else◌, Bool-cases, replicate, length-replicate, chunks, ℕ, ◌+◌, ◌≡◌, refl, inl, inr,
  Option, none, some, List, [], ◌∷◌, ◌++◌, arith,
}

abbrev plain : Bytes → Bytes
plain name = name

-- "/a" holds a file "x" of 4 bytes and a file "b" of 5 bytes; "/b" is a file of 9 bytes.
abbrev path_a : FilePath
path_a = root_dir ∷ normal (97 ∷ []) ∷ []

abbrev path_b : FilePath
path_b = root_dir ∷ normal (98 ∷ []) ∷ []

abbrev inside : Entries
inside = entry (120 ∷ []) (file 4) (entry (98 ∷ []) (file 5) end)

abbrev relisted_inside : Entries
relisted_inside = entry (98 ∷ []) (file 5) (entry (120 ∷ []) (file 4) end)

abbrev at_name : Entries → Option Bytes → Node
at_name es (some (b ∷ [])) = if b == 97 then dir es else if b == 98 then file 9 else missing
at_name es _ = missing

abbrev tree : Entries → FilePath → Node
tree es p = at_name es (file_name p)

relist : SameNode (dir inside) (dir relisted_inside)
relist = relisted (exchange (120 ∷ []) (98 ∷ []) (λ e. ground arith))

relist_at : (n : Option Bytes) → SameNode (at_name inside n) (at_name relisted_inside n)
relist_at none = same missing
relist_at (some []) = same missing
relist_at (some (b ∷ c ∷ bs)) = same missing
relist_at (some (b ∷ [])) = elim (Bool-cases (b == 97)) [
  | inl a ↦ rw a relist
  | inr other ↦ rw other (same (if b == 98 then file 9 else missing))
]

walked :
    walk_all plain (tree inside) (path_b ∷ path_a ∷ [])
    ≡ some ((97 ∷ 47 ∷ 98 ∷ [], 5) ∷ (97 ∷ 47 ∷ 120 ∷ [], 4) ∷ (98 ∷ [], 9) ∷ [], 18)
unfolding walk_all walk_path walk collect sort insert name_le lex file_name path_le
walked = refl

batch_signature-size_example :
    total_of (batch_signature plain (tree inside) (path_a ∷ path_b ∷ []))
    ≡ wrapped (batch_size (tree inside) (path_a ∷ path_b ∷ []))
batch_signature-size_example = batch_signature-size plain (tree inside) (path_a ∷ path_b ∷ [])

batch_signature-SameNode_example :
    batch_signature plain (tree inside) (path_a ∷ path_b ∷ [])
    ≡ batch_signature plain (tree relisted_inside) (path_b ∷ path_a ∷ [])
batch_signature-SameNode_example =
    batch_signature-SameNode plain (tree inside) (tree relisted_inside)
      (λ p. relist_at (file_name p)) (Perm.swap path_b path_a [])

-- The archive is as long as the paths that were appended.
abbrev counting : Tar ℕ
counting = record {
  empty = 0;
  append_dir_all = λ name p n. some (n + 1);
  append_path_with_name = λ p name n. some (n + 1);
  into_inner = λ n. some (replicate n 0);
}

pack-IsPacked_example :
    IsPacked plain
      (tree inside)
      counting
      (path_a ∷ path_b ∷ [])
      17
      (pack plain (tree inside) counting (path_a ∷ path_b ∷ []) 17)
pack-IsPacked_example = pack-IsPacked plain (tree inside) counting (path_a ∷ path_b ∷ []) 17

abbrev large : Bytes
large = replicate (max_transfer + 1) 0

feed_all-too_large_example :
    (frames : List Bytes) × (encode_transfer 3 large ≡ some frames)
    × (feed_all busy frames ≡ (
      record { active = none; data_frames = 3 },
      error too_large ∷ (errors_for (chunks max_payload large) ++ (error end_without_start ∷ [])),
    ))
feed_all-too_large_example =
    feed_all-too_large busy 3 large
      (omega (arith, length-replicate {0} {A = ℕ} (max_transfer + 1) 0))
      (omega (arith, length-replicate {0} {A = ℕ} (max_transfer + 1) 0))

-- Only the entry that is older than three days and not from the future is removed.
cleaned :
    cleanup_stage 300_000_000 259_200_000 (
      some (
        (record { path = path_a; modified = some 10 })
        ∷ (record { path = path_b; modified = some 299_000_000 })
        ∷ (record { path = path_b; modified = some 400_000_000 })
        ∷ (record { path = path_b; modified = none })
        ∷ []))
    ≡ path_a ∷ []
unfolding cleanup_stage
cleaned = refl
