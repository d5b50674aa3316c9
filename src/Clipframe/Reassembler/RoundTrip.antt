-- ===== src/Clipframe/Reassembler/RoundTrip.antt =====
-- The receiver gets back what the sender encoded.
use beaglewing.Clipframe.Defs.{max_payload, max_transfer, t_start, t_data, t_end}
use beaglewing.Clipframe.Encode.{next_seq, start_payload, encode_transfer}
use beaglewing.Clipframe.Encode.Frames.{
  data_frames_from, last_seq_from, start_frame, end_frame, transfer_frames, encode_transfer-eq,
}
use beaglewing.Clipframe.Frame.{frame_bytes, u32_payload}
use beaglewing.Clipframe.Frame.Layout.{parse-frame_bytes}
use beaglewing.Clipframe.Reassembler.{
  FeedResult, nothing, progress, complete, Reassembler, feed_parsed, feed, feed_all,
}
use beaglewing.Common.Bytes.{Bytes, IsU16, u32_to_le, u32_from_le-to_le}
use beaglewing.Common.Chunks.{chunks-All-length, flatten-chunks, length-chunks-le}
use beaglewing.Common.{
  length, All, length-append, chunks, ℕ, suc, ◌+◌, ◌%◌, ◌^◌, ◌≤◌, ◌<◌, ◌≡◌, ap, ◌∙◌, none, some,
  List, [], ◌∷◌, ◌++◌, flatten, append-nil, append_assoc, arith,
}

-- One `progress` for each chunk, counted from `n + 1` on.
abbrev pub progress_from : ℕ → List Bytes → List FeedResult
progress_from n [] = []
progress_from n (c ∷ cs) = progress (n + 1) ∷ progress_from (n + 1) cs

abbrev receiving : ℕ → ℕ → ℕ → Bytes → ℕ → Reassembler
receiving kind total seq content n = record {
  active = some (record { kind = kind; total = total; last_seq = seq; content = content });
  data_frames = n;
}

pub feed-frame_bytes :
    (r : Reassembler) (t seq : ℕ) (payload : Bytes)
    → IsU16 seq
    → length payload ≤ max_payload
    → feed r (frame_bytes t seq payload) ≡ feed_parsed r t seq payload
feed-frame_bytes r t seq payload hs hp =
    unfold feed in rw (parse-frame_bytes t seq payload hs hp, feed)

feed-start_frame :
    (r : Reassembler) (kind : ℕ) (content : Bytes)
    → length content ≤ max_transfer
    → feed r (start_frame kind content) ≡ (receiving kind (length content) 0 [] 0, nothing)
feed-start_frame r kind content h =
    feed-frame_bytes r t_start 0 (start_payload kind content) (omega arith)
      (unfold start_payload in omega arith)
    ∙ unfold feed_parsed start_payload in
      ground (arith, u32_from_le-to_le (length content % 2 ^ 32))

feed-data_frame :
    (kind total seq n : ℕ) (content c : Bytes)
    → total ≤ max_transfer
    → length c ≤ max_payload
    → length (content ++ c) ≤ total
    → n + 1 < 2 ^ 32
    → feed (receiving kind total seq content n) (frame_bytes t_data (next_seq seq) c)
      ≡ (receiving kind total (next_seq seq) (content ++ c) (n + 1), progress (n + 1))
feed-data_frame kind total seq n content c ht hc hl hn =
    feed-frame_bytes _ t_data (next_seq seq) c (omega arith) hc ∙ unfold feed_parsed in ground arith

feed-end_frame :
    (kind seq n : ℕ) (content : Bytes)
    → length content ≤ max_transfer
    → feed (receiving kind (length content) seq content n) (end_frame seq content)
      ≡ (record { active = none; data_frames = n }, complete kind content)
feed-end_frame kind seq n content h =
    feed-frame_bytes _ t_end (next_seq seq) (u32_to_le (length content % 2 ^ 32)) (omega arith)
      (omega arith)
    ∙ unfold feed_parsed u32_payload in ground (arith, u32_from_le-to_le (length content % 2 ^ 32))

-- One frame, and then the others.
pub feed_all-cons :
    (r : Reassembler) (f : Bytes) (fs : List Bytes) {r' : Reassembler} {x : FeedResult}
    → feed r f ≡ (r', x)
    → feed_all r (f ∷ fs) ≡ ((feed_all r' fs).0, x ∷ (feed_all r' fs).1)
unfolding feed_all
feed_all-cons r f fs e = rw (e, feed_all)

-- After the chunks `cs` of a transfer, with `content` received before.
feed_all-data_frames :
    (cs : List Bytes) (kind total seq n : ℕ) (content : Bytes) (rest : List Bytes)
    → total ≤ max_transfer
    → All (λ c. length c ≤ max_payload) cs
    → length (content ++ flatten cs) ≤ total
    → n + length cs < 2 ^ 32
    → feed_all (receiving kind total seq content n) (data_frames_from seq cs ++ rest) ≡ (
        let after =
          feed_all
            (receiving kind total (last_seq_from seq cs) (content ++ flatten cs) (n + length cs))
            rest in
        (after.0, progress_from n cs ++ after.1))
unfolding data_frames_from last_seq_from flatten
feed_all-data_frames [] kind total seq n content rest ht hc hl hn =
    let e : n + 0 ≡ n = omega arith in rw (append-nil, e)
feed_all-data_frames (c ∷ cs) kind total seq n content rest ht (hc, hcs) hl hn =
    let regroup = append_assoc content c (flatten cs) in
    let count : n + 1 + length cs ≡ n + suc (length cs) = omega arith in
    let fits : length (content ++ c) ≤ total =
      omega (arith, ap length regroup, length-append (content ++ c) (flatten cs), hl) in
    let ih =
      feed_all-data_frames cs kind total (next_seq seq) (n + 1) (content ++ c) rest ht hcs
        (rw regroup hl) (omega arith) in
    feed_all-cons _ _ _ (feed-data_frame kind total seq n content c ht hc fits (omega arith))
    ∙ rw ih (rw (regroup, count))

-- A receiver in any state that is fed the frames of a transfer within the limit reports nothing for
-- START, the count of chunks so far for each DATA frame and, for END, the kind and the content that
-- were sent. It is then idle, with the number of chunks counted.
pub feed_all-encode_transfer :
    (r : Reassembler) (kind : ℕ) (content : Bytes)
    → length content ≤ max_transfer
    → (frames : List Bytes) × (encode_transfer kind content ≡ some frames)
      × (feed_all r frames ≡ (
        record { active = none; data_frames = length (chunks max_payload content) },
        nothing ∷ (progress_from 0 (chunks max_payload content) ++ (complete kind content ∷ [])),
      ))
feed_all-encode_transfer r kind content h =
    (transfer_frames kind content, encode_transfer-eq kind content, fed)
  where
    whole : flatten (chunks max_payload content) ≡ content
    whole = flatten-chunks max_payload content (omega arith)

    few : length (chunks max_payload content) ≤ length content
    few = length-chunks-le max_payload content

    none_before : 0 + length (chunks max_payload content) ≡ length (chunks max_payload content)
    none_before = omega arith

    fed : feed_all r (transfer_frames kind content) ≡ (
      record { active = none; data_frames = length (chunks max_payload content) },
      nothing ∷ (progress_from 0 (chunks max_payload content) ++ (complete kind content ∷ [])),
    )
    fed =
        feed_all-cons r _ _ (feed-start_frame r kind content h)
        ∙ rw
            (
              feed_all-data_frames (chunks max_payload content) kind (length content) 0 0 [] _ h
                  (chunks-All-length max_payload content) (rw whole (omega arith))
                  (omega (arith, few)),
              whole,
              feed_all-cons _ _ [] (
                  feed-end_frame kind (last_seq_from 0 (chunks max_payload content))
                    (0 + length (chunks max_payload content)) content h),
            )
            (unfold feed_all in rw none_before)
