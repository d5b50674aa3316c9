-- ===== src/Clipboard/Text.antt =====
-- linux/input-router/src/clipboard.rs: the change hashes, line endings and file URIs.
-- Text and paths are the bytes of their UTF-8 form.
pub mod Uris
pub mod Plain
pub mod Lists
use beaglewing.Clipframe.Signature.{fnv1a}
use beaglewing.Common.Bytes.{Bytes}
use beaglewing.Common.{
  ltb, leb, ◌==◌, if◌then◌else◌, ◌>>=◌, ℕ, ◌+◌, ◌-◌, ◌*◌, ◌/◌, ◌%◌, ◌^◌, bit_xor, Bool, true, false,
  not, ◌&&◌, ◌||◌, Option, none, some, List, [], ◌∷◌, ◌++◌,
}

unfoldable pub content_hash : ℕ → Bytes → ℕ
content_hash kind content = bit_xor (fnv1a content) kind

unfoldable pub offer_id : ℕ → ℕ
offer_id hash = bit_xor (hash % 2 ^ 32) (hash / 2 ^ 32)

-- `replace("\r\n", "\n")`
unfoldable pub unix_lines : Bytes → Bytes
unix_lines [] = []
unix_lines (b ∷ []) = b ∷ []
unix_lines (b ∷ c ∷ rest) =
    let skip = unix_lines rest in
    let next = unix_lines (c ∷ rest) in if b == 13 && c == 10 then 10 ∷ skip else b ∷ next

abbrev is_alphanumeric : ℕ → Bool
is_alphanumeric b = (leb 48 b && leb b 57) || ((leb 65 b && leb b 90) || (leb 97 b && leb b 122))

-- alphanumeric, or one of / - _ . ~
abbrev pub is_kept : ℕ → Bool
is_kept b = is_alphanumeric b || (b == 47 || (b == 45 || (b == 95 || (b == 46 || b == 126))))

-- a digit of `{b:02X}`
abbrev pub upper_hex : ℕ → ℕ
upper_hex d = if ltb d 10 then 48 + d else 55 + d

unfoldable pub encode_path : Bytes → Bytes
encode_path [] = []
encode_path (b ∷ bs) =
    let rest = encode_path bs in
    if is_kept b then b ∷ rest else 37 ∷ upper_hex (b / 16) ∷ upper_hex (b % 16) ∷ rest

abbrev pub file_scheme : Bytes
file_scheme = 102 ∷ 105 ∷ 108 ∷ 101 ∷ 58 ∷ 47 ∷ 47 ∷ []

unfoldable pub path_to_uri : Bytes → Bytes
path_to_uri path = file_scheme ++ encode_path path

-- the value of a digit, in either case
abbrev pub hex_digit : ℕ → Option ℕ
hex_digit c =
    if leb 48 c && leb c 57
    then some (c - 48)
    else if leb 65 c && leb c 70
    then some (c - 55)
    else if leb 97 c && leb c 102
    then some (c - 87)
    else none

-- `u8::from_str_radix` on two characters, which takes a leading plus sign
unfoldable pub from_hex : ℕ → ℕ → Option ℕ
from_hex a b =
    if a == 43 then hex_digit b else do hi ← hex_digit a; lo ← hex_digit b; some (16 * hi + lo)

-- The loop over the bytes behind the scheme. Two bytes that are not UTF-8 are no digits either, and
-- both end in `None`. The loop takes a % as it stands when fewer than two bytes follow.
unfoldable pub decode_uri : Bytes → Option Bytes
decode_uri [] = some []
decode_uri (c ∷ []) = some (c ∷ [])
decode_uri (c ∷ d ∷ []) = some (c ∷ d ∷ [])
decode_uri (c ∷ d ∷ e ∷ rest) =
    let skip = decode_uri rest in
    let next = decode_uri (d ∷ e ∷ rest) in
    if c == 37
    then (do b ← from_hex d e; bs ← skip; some (b ∷ bs))
    else (do bs ← next; some (c ∷ bs))

unfoldable pub strip_prefix : Bytes → Bytes → Option Bytes
strip_prefix [] text = some text
strip_prefix (p ∷ ps) [] = none
strip_prefix (p ∷ ps) (c ∷ cs) = let rest = strip_prefix ps cs in if p == c then rest else none

abbrev pub to_first : ℕ → List Bytes → List Bytes
to_first b [] = (b ∷ []) ∷ []
to_first b (line ∷ more) = (b ∷ line) ∷ more

-- `lines`: a line feed ends a line, and takes a carriage return before it along.
unfoldable pub lines : Bytes → List Bytes
lines [] = []
lines (b ∷ []) = if b == 10 then [] ∷ [] else (b ∷ []) ∷ []
lines (b ∷ c ∷ rest) =
    let skip = lines rest in
    let next = lines (c ∷ rest) in
    if b == 10 then [] ∷ next else if b == 13 && c == 10 then [] ∷ skip else to_first b next

abbrev same_bytes : Bytes → Bytes → Bool
same_bytes [] [] = true
same_bytes (a ∷ xs) (b ∷ bs) = a == b && same_bytes xs bs
same_bytes _ _ = false

abbrev starts_comment : Bytes → Bool
starts_comment [] = true
starts_comment (b ∷ bs) = b == 35

abbrev pub copy_line : Bytes
copy_line = 99 ∷ 111 ∷ 112 ∷ 121 ∷ []

-- a line that may hold a URI: not empty, no comment, and neither "copy" nor "cut"
abbrev pub is_listed : Bytes → Bool
is_listed line =
    not (starts_comment line)
    && (not (same_bytes line copy_line) && not (same_bytes line (99 ∷ 117 ∷ 116 ∷ [])))

-- `trim` and `from_utf8_lossy` belong to the standard library, whose tables of characters are not
-- repeated here.
module _ (trim lossy : Bytes → Bytes) where
  unfoldable pub uri_to_path : Bytes → Option Bytes
  uri_to_path uri = do
    raw ← strip_prefix file_scheme (trim uri)
    out ← decode_uri raw
    some (lossy out)

  unfoldable pub listed_paths : List Bytes → List Bytes
  unfolding uri_to_path
  listed_paths [] = []
  listed_paths (line ∷ more) =
      let later = listed_paths more in
      if is_listed line
      then elim (uri_to_path line) [ none ↦ later | some path ↦ path ∷ later ]
      else later

  unfoldable pub parse_file_list : Bytes → List Bytes
  unfolding listed_paths
  parse_file_list content = listed_paths (lines (lossy content))

abbrev pub file_list : List Bytes → Bytes
file_list [] = []
file_list (p ∷ ps) = 10 ∷ (path_to_uri p ++ file_list ps)

-- What the agent puts on the clipboard for these paths: "copy" and a line for each.
unfoldable pub copied_files : List Bytes → Bytes
copied_files paths = copy_line ++ file_list paths
