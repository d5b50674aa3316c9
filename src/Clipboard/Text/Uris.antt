-- ===== src/Clipboard/Text/Uris.antt =====
-- The URI of a path leads back to the path.
use beaglewing.Clipboard.Text.{
  is_kept, upper_hex, encode_path, file_scheme, path_to_uri, from_hex, decode_uri, strip_prefix,
  uri_to_path,
}
use beaglewing.Common.Bytes.{Bytes, IsByte}
use beaglewing.Common.{
  ◌==◌, ==_iff, Bool-cases, if-cases, ◌>>=◌, every_below, every_below-lookup, All, All-append, ℕ,
  ◌/◌, ◌%◌, ◌≤◌, ◌≡◌, refl, ap, ◌∙◌, inl, inr, Bool, true, false, Option, none, some, [], ◌∷◌, ◌++◌,
  arith,
}

abbrev is_value : Option ℕ → ℕ → Bool
is_value none b = false
is_value (some v) b = v == b

-- Every byte that is escaped is read back from its two digits.
abbrev hex_row : ℕ → Bool
hex_row b = is_value (from_hex (upper_hex (b / 16)) (upper_hex (b % 16))) b

hex_table : every_below hex_row 256 ≡ true
unfolding every_below from_hex
hex_table = refl

is_value-eq : (o : Option ℕ) (b : ℕ) → is_value o b ≡ true → o ≡ some b
is_value-eq none b h = absurd (cc)
is_value-eq (some v) b h = ap some ((==_iff v b).0 h)

from_hex-upper_hex :
    (b : ℕ) → IsByte b → from_hex (upper_hex (b / 16)) (upper_hex (b % 16)) ≡ some b
from_hex-upper_hex b h = is_value-eq _ b (every_below-lookup hex_row 256 b h hex_table)

-- A byte that stands for itself is no escape, wherever it stands.
decode_uri-kept :
    (b : ℕ) (rest : Bytes)
    → is_kept b ≡ true
    → decode_uri (b ∷ rest) ≡ (decode_uri rest >>= λ bs. some (b ∷ bs))
unfolding decode_uri
decode_uri-kept b [] h = refl
decode_uri-kept b (c ∷ []) h = refl
decode_uri-kept b (c ∷ d ∷ rest) h =
    let other : (b == 37) ≡ false = ground (arith, h) in rw other refl

decode_uri-escaped :
    (b : ℕ) (rest : Bytes)
    → IsByte b
    → decode_uri (37 ∷ upper_hex (b / 16) ∷ upper_hex (b % 16) ∷ rest)
      ≡ (decode_uri rest >>= λ bs. some (b ∷ bs))
unfolding decode_uri
decode_uri-escaped b rest h = rw (from_hex-upper_hex b h) refl

decode_uri-encode_path :
    (path : Bytes) → All IsByte path → decode_uri (encode_path path) ≡ some path
unfolding encode_path
decode_uri-encode_path [] h = unfold decode_uri in refl
decode_uri-encode_path (b ∷ bs) (hb, hs) = elim (Bool-cases (is_kept b)) [
  | inl kept ↦
      rw kept (decode_uri-kept b (encode_path bs) kept ∙ rw (decode_uri-encode_path bs hs) refl)
  | inr escaped ↦
      rw escaped (decode_uri-escaped b (encode_path bs) hb ∙ rw (decode_uri-encode_path bs hs) refl)
]

strip_prefix-append : (ps text : Bytes) → strip_prefix ps (ps ++ text) ≡ some text
unfolding strip_prefix
strip_prefix-append [] text = refl
strip_prefix-append (p ∷ ps) text = rw (strip_prefix-append ps text) (ground arith)

-- A printable character of ASCII other than the space.
abbrev pub IsPrintable : ℕ → Type 0
IsPrintable b = (33 ≤ b) × (b ≤ 126)

encode_path-IsPrintable : (path : Bytes) → All IsByte path → All IsPrintable (encode_path path)
unfolding encode_path
encode_path-IsPrintable [] h = tt
encode_path-IsPrintable (b ∷ bs) (hb, hs) =
    let rest = encode_path-IsPrintable bs hs in
    if-cases (All IsPrintable) (is_kept b) (λ kept. (ground (arith, kept), rest))
      (λ _. (
        (omega arith, omega arith),
        ((ground arith, ground arith), ((ground arith, ground arith), rest)),
      ))

pub path_to_uri-IsPrintable : (path : Bytes) → All IsByte path → All IsPrintable (path_to_uri path)
unfolding path_to_uri
path_to_uri-IsPrintable path h =
    All-append IsPrintable file_scheme (encode_path path) (omega arith)
      (encode_path-IsPrintable path h)

-- What the agent relies on: trimming leaves a text without white space alone.
pub record IsTrim (trim : Bytes → Bytes) : Type 0 where
  pub trim-printable : (text : Bytes) → All IsPrintable text → trim text ≡ text

path_to_uri-strip :
    (path : Bytes) → strip_prefix file_scheme (path_to_uri path) ≡ some (encode_path path)
unfolding path_to_uri
path_to_uri-strip path = strip_prefix-append file_scheme (encode_path path)

-- The URI that the agent puts on the clipboard for a path leads back to this path, for every path
-- that the decoding of UTF-8 leaves alone.
pub uri_to_path-path_to_uri :
    (trim lossy : Bytes → Bytes) (path : Bytes)
    → IsTrim trim
    → All IsByte path
    → lossy path ≡ path
    → uri_to_path trim lossy (path_to_uri path) ≡ some path
unfolding uri_to_path
uri_to_path-path_to_uri trim lossy path t h u = rw (
  t.trim-printable (path_to_uri path) (path_to_uri-IsPrintable path h),
  path_to_uri-strip path,
  decode_uri-encode_path path h,
  u,
)
