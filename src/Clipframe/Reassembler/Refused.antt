-- ===== src/Clipframe/Reassembler/Refused.antt =====
-- What a receiver makes of a transfer over the limit.
use beaglewing.Clipframe.Defs.{max_payload, max_transfer, t_start, t_data, t_end}
use beaglewing.Clipframe.Encode.{next_seq, start_payload, encode_transfer}
use beaglewing.Clipframe.Encode.Frames.{
  data_frames_from, last_seq_from, start_frame, end_frame, transfer_frames, encode_transfer-eq,
}
use beaglewing.Clipframe.Frame.{frame_bytes, u32_payload}
use beaglewing.Clipframe.Reassembler.{
  FeedResult, error, too_large, data_without_start, end_without_start, Reassembler, feed_parsed,
  feed, feed_all,
}
use beaglewing.Clipframe.Reassembler.RoundTrip.{feed-frame_bytes, feed_all-cons}
use beaglewing.Common.Bytes.{Bytes, IsU32, u32_to_le, u32_from_le-to_le}
use beaglewing.Common.Chunks.{chunks-All-length}
use beaglewing.Common.{
  length, All, chunks, ℕ, ◌%◌, ◌^◌, ◌≤◌, ◌<◌, ◌≡◌, refl, ◌∙◌, none, some, List, [], ◌∷◌, ◌++◌,
  arith,
}

abbrev idle : ℕ → Reassembler
idle n = record { active = none; data_frames = n }

-- One error for each chunk.
abbrev pub errors_for : List Bytes → List FeedResult
errors_for [] = []
errors_for (c ∷ cs) = error data_without_start ∷ errors_for cs

feed-large_start :
    (r : Reassembler) (kind : ℕ) (content : Bytes)
    → max_transfer < length content
    → IsU32 (length content)
    → feed r (start_frame kind content) ≡ (idle r.data_frames, error too_large)
feed-large_start r kind content h small =
    feed-frame_bytes r t_start 0 (start_payload kind content) (omega arith)
      (unfold start_payload in omega arith)
    ∙ unfold feed_parsed start_payload in
      ground (arith, u32_from_le-to_le (length content % 2 ^ 32))

feed-stray_data :
    (n seq : ℕ) (c : Bytes)
    → length c ≤ max_payload
    → feed (idle n) (frame_bytes t_data (next_seq seq) c) ≡ (idle n, error data_without_start)
feed-stray_data n seq c h =
    feed-frame_bytes _ t_data (next_seq seq) c (omega arith) h ∙ unfold feed_parsed in refl

feed-stray_end :
    (n seq : ℕ) (content : Bytes)
    → feed (idle n) (end_frame seq content) ≡ (idle n, error end_without_start)
feed-stray_end n seq content =
    feed-frame_bytes _ t_end (next_seq seq) (u32_to_le (length content % 2 ^ 32)) (omega arith)
      (omega arith)
    ∙ unfold feed_parsed u32_payload in refl

feed_all-stray_data :
    (cs : List Bytes) (n seq : ℕ) (rest : List Bytes)
    → All (λ c. length c ≤ max_payload) cs
    → feed_all (idle n) (data_frames_from seq cs ++ rest)
      ≡ ((feed_all (idle n) rest).0, errors_for cs ++ (feed_all (idle n) rest).1)
unfolding data_frames_from
feed_all-stray_data [] n seq rest h = refl
feed_all-stray_data (c ∷ cs) n seq rest (hc, hcs) =
    feed_all-cons _ _ _ (feed-stray_data n seq c hc)
    ∙ rw (feed_all-stray_data cs n (next_seq seq) rest hcs) refl

-- A receiver in any state that is fed the frames of a transfer over the limit, of fewer than 2 ^ 32
-- bytes, refuses it at the START frame and reports an error for every frame after it: it hands
-- nothing over, counts no DATA frame and is idle at the end.
pub feed_all-too_large :
    (r : Reassembler) (kind : ℕ) (content : Bytes)
    → max_transfer < length content
    → IsU32 (length content)
    → (frames : List Bytes) × (encode_transfer kind content ≡ some frames)
      × (feed_all r frames ≡ (
        record { active = none; data_frames = r.data_frames },
        error too_large
            ∷ (errors_for (chunks max_payload content) ++ (error end_without_start ∷ [])),
      ))
feed_all-too_large r kind content h small = (
  transfer_frames kind content,
  encode_transfer-eq kind content,
  feed_all-cons r _ _ (feed-large_start r kind content h small)
      ∙ rw
          (
            feed_all-stray_data (chunks max_payload content) r.data_frames 0 _
                (chunks-All-length max_payload content),
            feed_all-cons _ _ [] (
                feed-stray_end r.data_frames (last_seq_from 0 (chunks max_payload content))
                  content),
          )
          (unfold feed_all in refl),
)
