-- ===== src/Clipframe/Encode.antt =====
-- protocol/clipframe/src/lib.rs: `encode_transfer`.
pub mod Frames
use beaglewing.Clipframe.Defs.{max_payload, t_start, t_data, t_end}
use beaglewing.Clipframe.Frame.{frame}
use beaglewing.Common.{ℕ, ◌+◌, ◌%◌, ◌^◌, List, [], ◌∷◌, ◌++◌, Option, some, length, chunks, ◌>>=◌}
use beaglewing.Common.Bytes.{Bytes, u32_to_le}

-- `seq.wrapping_add(1)` on u16
abbrev pub next_seq : ℕ → ℕ
next_seq seq = (seq + 1) % 2 ^ 16

-- The loop over the chunks: `out` is what was pushed before, `seq` the last number used.
unfoldable pub encode_chunks : List Bytes → ℕ → List Bytes → Option (ℕ × List Bytes)
encode_chunks [] seq out = some (seq, out)
encode_chunks (chunk ∷ rest) seq out = do
  f ← frame t_data (next_seq seq) chunk
  encode_chunks rest (next_seq seq) (out ++ (f ∷ []))

unfoldable pub start_payload : ℕ → Bytes → Bytes
start_payload kind content = kind ∷ u32_to_le (length content % 2 ^ 32)

unfoldable pub encode_transfer : ℕ → Bytes → Option (List Bytes)
encode_transfer kind content = do
  start ← frame t_start 0 (start_payload kind content)
  (seq, out) ← encode_chunks (chunks max_payload content) 0 (start ∷ [])
  last ← frame t_end (next_seq seq) (u32_to_le (length content % 2 ^ 32))
  some (out ++ (last ∷ []))
