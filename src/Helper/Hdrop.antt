-- ===== src/Helper/Hdrop.antt =====
-- windows/clipboard-agent/src/main.rs: `build_hdrop`.
-- A path is given as the units of its UTF-16 form.
use beaglewing.Common.Bytes.{Bytes, IsU16, u16_to_le, u16_from_le, u32_from_le, u16_from_le-to_le}
use beaglewing.Common.{
  ◌==◌, if◌then◌else◌, ◌>>=◌, length, drop, replicate, All, get_or, set, length-append, ℕ, ◌+◌, ◌<◌,
  ◌≡◌, refl, ◌∙◌, false, Option, none, some, List, [], ◌∷◌, ◌++◌, append-nil, append_assoc, arith,
}

-- the header, with the offset of the path list and the mark for UTF-16
header : Bytes
header = set (set (replicate 20 0) 0 20) 16 1

unfoldable pub encode_units : List ℕ → Bytes
encode_units [] = u16_to_le 0
encode_units (u ∷ us) = u16_to_le u ++ encode_units us

unfoldable pub encode_paths : List (List ℕ) → Bytes
unfolding encode_units
encode_paths [] = u16_to_le 0
encode_paths (p ∷ ps) = encode_units p ++ encode_paths ps

unfoldable pub build_hdrop : List (List ℕ) → Bytes
unfolding header encode_paths replicate
build_hdrop paths = header ++ encode_paths paths

-- How Windows documents a DROPFILES list of wide characters: paths that end with a zero unit, up to
-- an empty one. `path` holds the units of the current path; none if the list does not end.
unfoldable pub read_paths : List ℕ → Bytes → Option (List (List ℕ))
read_paths path [] = none
read_paths path (a ∷ []) = none
read_paths path (a ∷ b ∷ rest) =
    let unit = u16_from_le a b in
    let next = read_paths [] rest in
    let more = read_paths (path ++ (unit ∷ [])) rest in
    if unit == 0
    then (elim path [ [] ↦ some [] | c ∷ cs ↦ (do ps ← next; some ((c ∷ cs) ∷ ps)) ])
    else more

-- The offset of the list is in the first four bytes, and the mark for wide characters in the last
-- four of the header.
unfoldable pub read_hdrop : Bytes → Option (List (List ℕ))
unfolding read_paths
read_hdrop (a ∷ b ∷ c ∷ d ∷ rest) =
    let content = a ∷ b ∷ c ∷ d ∷ rest in
    let wide = get_or content 16 0 in
    if wide == 0 then none else read_paths [] (drop (u32_from_le a b c d) content)
read_hdrop _ = none

-- a unit of a path
abbrev pub IsUnit : ℕ → Type 0
IsUnit u = IsU16 u × (0 < u)

read_paths-end :
    (c : ℕ) (cs : List ℕ) (rest : Bytes)
    → read_paths (c ∷ cs) (u16_to_le 0 ++ rest) ≡ (do ps ← read_paths [] rest; some ((c ∷ cs) ∷ ps))
unfolding read_paths u16_from_le
read_paths-end c cs rest = refl

read_paths-units :
    (us : List ℕ) (path : List ℕ) (rest : Bytes)
    → All IsUnit us
    → 0 < length path + length us
    → read_paths path (encode_units us ++ rest)
      ≡ (do ps ← read_paths [] rest; some ((path ++ us) ∷ ps))
unfolding read_paths encode_units
read_paths-units [] [] rest h n = absurd (omega arith)
read_paths-units [] (c ∷ cs) rest h n = read_paths-end c cs rest ∙ rw (append-nil (c ∷ cs)) refl
read_paths-units (u ∷ us) path rest (h, hs) n =
    let nonzero : (u == 0) ≡ false = ground (arith, h) in
    rw (u16_from_le-to_le u h.0, nonzero)
      (read_paths-units us (path ++ (u ∷ [])) rest hs (omega (arith, length-append path (u ∷ [])))
        ∙ rw (append_assoc path (u ∷ []) us) refl)

read_paths-paths :
    (ps : List (List ℕ))
    → All (λ p. All IsUnit p × (0 < length p)) ps
    → read_paths [] (encode_paths ps) ≡ some ps
unfolding encode_paths
read_paths-paths [] h = unfold read_paths u16_from_le in refl
read_paths-paths (p ∷ ps) ((h, n), hs) =
    read_paths-units p [] (encode_paths ps) h (omega (arith, n)) ∙ rw (read_paths-paths ps hs) refl

-- The list of files that is put on the clipboard is read back as the same paths by the layout that
-- Windows documents, for paths that are not empty and have no zero unit.
pub read_hdrop-build_hdrop :
    (ps : List (List ℕ))
    → All (λ p. All IsUnit p × (0 < length p)) ps
    → read_hdrop (build_hdrop ps) ≡ some ps
unfolding read_hdrop build_hdrop
read_hdrop-build_hdrop ps h = unfold u32_from_le in read_paths-paths ps h
