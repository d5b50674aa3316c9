-- ===== src/Clipframe/Signature.antt =====
-- protocol/clipframe/src/lib.rs: the change hashes `fnv1a` and `list_signature`, and `eta_secs`.
-- A u64 is a number below 2 ^ 64; a name is its UTF-8 bytes.
use beaglewing.Common.Bytes.{Bytes}
use beaglewing.Common.{◌==◌, if◌then◌else◌, ℕ, ◌*◌, ◌/◌, ◌%◌, ◌^◌, bit_xor, List, [], ◌∷◌}

abbrev pub offset_basis : ℕ
offset_basis = 0xcbf29ce484222325

-- One step of the hash, with a byte or a size.
unfoldable pub mix : ℕ → ℕ → ℕ
mix h v = bit_xor h v * 0x100000001b3 % 2 ^ 64

unfoldable pub fnv1a_from : ℕ → Bytes → ℕ
fnv1a_from h [] = h
fnv1a_from h (b ∷ bs) = fnv1a_from (mix h b) bs

unfoldable pub fnv1a : Bytes → ℕ
unfolding fnv1a_from
fnv1a content = fnv1a_from offset_basis content

unfoldable pub list_signature_from : ℕ → List (Bytes × ℕ) → ℕ
list_signature_from h [] = h
list_signature_from h ((name, size) ∷ items) =
    list_signature_from (mix (fnv1a_from h name) size) items

unfoldable pub list_signature : List (Bytes × ℕ) → ℕ
unfolding list_signature_from
list_signature items = list_signature_from offset_basis items

-- The rates are positive constants.
unfoldable pub eta_secs : ℕ → ℕ → ℕ
eta_secs bytes rate = let secs = bytes / rate in if secs == 0 then 1 else secs
