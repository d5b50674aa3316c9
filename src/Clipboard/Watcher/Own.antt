-- ===== src/Clipboard/Watcher/Own.antt =====
-- What the watcher reports of a list of files that the agent put on the clipboard.
use beaglewing.Clipboard.Agent.{changed}
use beaglewing.Clipboard.Text.{copied_files}
use beaglewing.Clipboard.Text.Lists.{IsLossless, parse_file_list-copied_files}
use beaglewing.Clipboard.Text.Uris.{IsTrim}
use beaglewing.Clipboard.Watcher.{
  Name, gnome_copied_files, Desktop, Found, is_empty, read_files, read_offered,
  read_local_clipboard, watch,
}
use beaglewing.Clipframe.Defs.{kind_tar}
use beaglewing.Common.Bytes.{Bytes, IsByte}
use beaglewing.Common.{
  ◌==◌, if◌then◌else◌, All, ℕ, bit_xor, ◌≡◌, refl, ap, Bool, true, none, some, List, ◌∷◌,
}

module _ (trim lossy : Bytes → Bytes) (d : Desktop) (has : Name → Bool) (p : Bytes)
    (ps : List Bytes) (sig total : ℕ) (t : IsTrim trim) (l : IsLossless lossy)
    (paths : All (λ p. All IsByte p × (lossy p ≡ p)) (p ∷ ps)) (offers : d.targets ≡ some has)
    (first : has gnome_copied_files ≡ true)
    (serves : d.xclip_out gnome_copied_files ≡ some (copied_files (p ∷ ps)))
    (signed : d.batch_signature (p ∷ ps) ≡ some (sig, total)) where
  abbrev own : Found
  own = record { kind = kind_tar; content = copied_files (p ∷ ps); hash = bit_xor sig kind_tar }

  read_files-own : read_files trim lossy d gnome_copied_files ≡ some own
  unfolding read_files is_empty
  read_files-own =
      rw (serves, parse_file_list-copied_files trim lossy t l (p ∷ ps) paths, signed) refl

  read_local_clipboard-own : read_local_clipboard trim lossy d ≡ some own
  unfolding read_local_clipboard read_offered
  read_local_clipboard-own = rw (offers, first) read_files-own

  -- When the clipboard serves the list that the agent made of one or more paths, the watcher reads
  -- it as files, with the hash that the agent keeps for this batch; so it reports nothing when this
  -- is the hash that it has seen last, and else one change, of this content and with this hash.
  pub watch-copied_files :
      (prev : ℕ)
      → watch prev (read_local_clipboard trim lossy d) ≡ (
          if bit_xor sig kind_tar == prev then (prev, none) else (
            bit_xor sig kind_tar,
            some (changed kind_tar (copied_files (p ∷ ps)) (bit_xor sig kind_tar)),
          ))
  unfolding watch
  watch-copied_files prev = ap (watch prev) read_local_clipboard-own
