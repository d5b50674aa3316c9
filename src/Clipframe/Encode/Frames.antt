-- ===== src/Clipframe/Encode/Frames.antt =====
-- The frames of a transfer with no accumulator, and the proof that `encode_transfer` writes them.
use beaglewing.Clipframe.Defs.{max_payload, t_start, t_data, t_end}
use beaglewing.Clipframe.Encode.{next_seq, encode_chunks, start_payload, encode_transfer}
use beaglewing.Clipframe.Frame.{frame_bytes}
use beaglewing.Clipframe.Frame.Layout.{frame-eq_bytes}
use beaglewing.Common.Chunks.{chunks-All-length}
use beaglewing.Common.Bytes.{Bytes, u32_to_le}
use beaglewing.Common.{
  length, All, chunks, ℕ, ◌%◌, ◌^◌, ◌≤◌, ◌≡◌, ◌∙◌, some, List, [], ◌∷◌, ◌++◌, append-nil,
  append_assoc, arith,
}

-- One DATA frame for each chunk, numbered from the number after `seq` on.
unfoldable pub data_frames_from : ℕ → List Bytes → List Bytes
data_frames_from seq [] = []
data_frames_from seq (c ∷ cs) =
    frame_bytes t_data (next_seq seq) c ∷ data_frames_from (next_seq seq) cs

unfoldable pub last_seq_from : ℕ → List Bytes → ℕ
last_seq_from seq [] = seq
last_seq_from seq (c ∷ cs) = last_seq_from (next_seq seq) cs

abbrev pub start_frame : ℕ → Bytes → Bytes
start_frame kind content = frame_bytes t_start 0 (start_payload kind content)

abbrev pub end_frame : ℕ → Bytes → Bytes
end_frame seq content = frame_bytes t_end (next_seq seq) (u32_to_le (length content % 2 ^ 32))

abbrev pub transfer_frames : ℕ → Bytes → List Bytes
transfer_frames kind content =
    let cs = chunks max_payload content in
    start_frame kind content
    ∷ (data_frames_from 0 cs ++ (end_frame (last_seq_from 0 cs) content ∷ []))

encode_chunks-eq :
    (cs : List Bytes) (seq : ℕ) (out : List Bytes)
    → All (λ c. length c ≤ max_payload) cs
    → encode_chunks cs seq out ≡ some (last_seq_from seq cs, out ++ data_frames_from seq cs)
unfolding encode_chunks data_frames_from last_seq_from
encode_chunks-eq [] seq out h = rw append-nil
encode_chunks-eq (c ∷ cs) seq out (hc, hcs) =
    rw (frame-eq_bytes t_data (next_seq seq) c hc)
      (encode_chunks-eq cs (next_seq seq) _ hcs ∙ rw append_assoc)

-- The assertion of `frame` never fails in `encode_transfer`. It writes a START frame with the kind
-- and the size, one DATA frame for each chunk of the content, numbered from 1 on, and an END frame
-- with the next number and the size again.
pub encode_transfer-eq :
    (kind : ℕ) (content : Bytes)
    → encode_transfer kind content ≡ some (transfer_frames kind content)
encode_transfer-eq kind content =
    unfold encode_transfer in
    rw (
      frame-eq_bytes t_start 0 (start_payload kind content) (unfold start_payload in omega arith),
      encode_chunks-eq (chunks max_payload content) 0 _ (chunks-All-length max_payload content),
      frame-eq_bytes t_end _ (u32_to_le (length content % 2 ^ 32)) (omega arith),
    )
