-- ===== src/Clipboard/Text/Lists.antt =====
-- The list of files that the agent puts on the clipboard is read back as the same paths.
use beaglewing.Clipboard.Text.{
  lines, listed_paths, parse_file_list, file_list, copied_files, copy_line, path_to_uri, is_listed,
}
use beaglewing.Clipboard.Text.Plain.{IsPlain, lines-end, lines-line}
use beaglewing.Clipboard.Text.Uris.{
  IsPrintable, IsTrim, uri_to_path-path_to_uri, path_to_uri-IsPrintable,
}
use beaglewing.Common.Bytes.{Bytes, IsByte}
use beaglewing.Common.{
  All, All-append, ℕ, ◌<◌, ◌≡◌, refl, ap, ◌∙◌, true, List, [], ◌∷◌, ◌++◌, append-nil, arith,
}

-- What the agent relies on: the decoding of UTF-8 leaves ASCII alone.
pub record IsLossless (lossy : Bytes → Bytes) : Type 0 where
  pub lossy-ascii : (text : Bytes) → All (λ b. b < 128) text → lossy text ≡ text

abbrev uris : List Bytes → List Bytes
uris [] = []
uris (p ∷ ps) = path_to_uri p ∷ uris ps

printable-IsPlain : (text : Bytes) → All IsPrintable text → All IsPlain text
printable-IsPlain [] h = tt
printable-IsPlain (b ∷ bs) (h, hs) =
    (((λ e. absurd (omega (arith, h))), (λ e. absurd (omega (arith, h)))), printable-IsPlain bs hs)

-- A line that is followed by the lines of these paths.
lines-file_list :
    (ps : List Bytes) (b : ℕ) (bs : Bytes)
    → All IsPrintable (b ∷ bs)
    → All (All IsByte) ps
    → lines ((b ∷ bs) ++ file_list ps) ≡ (b ∷ bs) ∷ uris ps
unfolding path_to_uri
lines-file_list [] b bs h k =
    ap lines (append-nil (b ∷ bs)) ∙ lines-end b bs (printable-IsPlain (b ∷ bs) h)
lines-file_list (p ∷ ps) b bs h (k, ks) =
    lines-line (b ∷ bs) (path_to_uri p ++ file_list ps) (printable-IsPlain (b ∷ bs) h)
    ∙ ap (λ z. (b ∷ bs) ∷ z) (lines-file_list ps _ _ (path_to_uri-IsPrintable p k) ks)

path_to_uri-is_listed : (p : Bytes) → is_listed (path_to_uri p) ≡ true
unfolding path_to_uri
path_to_uri-is_listed p = refl

printable-ascii : (text : Bytes) → All IsPrintable text → All (λ b. b < 128) text
printable-ascii [] h = tt
printable-ascii (b ∷ bs) (h, hs) = (omega (arith, h), printable-ascii bs hs)

file_list-ascii : (ps : List Bytes) → All (All IsByte) ps → All (λ b. b < 128) (file_list ps)
file_list-ascii [] h = tt
file_list-ascii (p ∷ ps) (h, hs) = (
  omega arith,
  All-append (λ b. b < 128) (path_to_uri p) (file_list ps)
      (printable-ascii (path_to_uri p) (path_to_uri-IsPrintable p h)) (file_list-ascii ps hs),
)

paths_bytes :
    (lossy : Bytes → Bytes) (ps : List Bytes)
    → All (λ p. All IsByte p × (lossy p ≡ p)) ps
    → All (All IsByte) ps
paths_bytes lossy [] h = tt
paths_bytes lossy (p ∷ ps) (h, hs) = (h.0, paths_bytes lossy ps hs)

module _ (trim lossy : Bytes → Bytes) (t : IsTrim trim) (l : IsLossless lossy) where
  listed_paths-uris :
      (ps : List Bytes)
      → All (λ p. All IsByte p × (lossy p ≡ p)) ps
      → listed_paths trim lossy (uris ps) ≡ ps
  unfolding listed_paths
  listed_paths-uris [] h = refl
  listed_paths-uris (p ∷ ps) ((h, k), hs) =
      rw
        (
          path_to_uri-is_listed p,
          uri_to_path-path_to_uri trim lossy p t h k,
          listed_paths-uris ps hs,
        )
        refl

  -- The list of files that the agent puts on the clipboard for a batch is read back as the same
  -- batch, for paths that the decoding of UTF-8 leaves alone.
  pub parse_file_list-copied_files :
      (ps : List Bytes)
      → All (λ p. All IsByte p × (lossy p ≡ p)) ps
      → parse_file_list trim lossy (copied_files ps) ≡ ps
  unfolding parse_file_list copied_files
  parse_file_list-copied_files ps h =
      let bytes = paths_bytes lossy ps h in
      rw
        (
          l.lossy-ascii (copy_line ++ file_list ps) (
              All-append (λ b. b < 128) copy_line (file_list ps) (omega arith)
                (file_list-ascii ps bytes)),
          lines-file_list ps 99 (111 ∷ 112 ∷ 121 ∷ []) (omega arith) bytes,
        )
        (skips ∙ listed_paths-uris ps h)
    where
      skips : listed_paths trim lossy (copy_line ∷ uris ps) ≡ listed_paths trim lossy (uris ps)
      skips = unfold listed_paths in refl
