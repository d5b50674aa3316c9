-- ===== src/Clipboard/Sending/Delivers.antt =====
-- What a receiver at the other end makes of the frames of `send_with_retry`, once it gets them.
use beaglewing.Clipframe.Defs.{max_payload, max_transfer, t_abort}
use beaglewing.Clipframe.Encode.Frames.{transfer_frames, data_frames_from, encode_transfer-eq}
use beaglewing.Clipframe.Frame.Layout.{parse-frame_bytes}
use beaglewing.Clipframe.Reassembler.{
  FeedResult, nothing, complete, Reassembler, feed, feed_parsed, feed_all,
}
use beaglewing.Clipframe.Reassembler.RoundTrip.{progress_from, feed_all-encode_transfer}
use beaglewing.Clipboard.Sending.{
  Wait, Sent, Retried, sent, gone, abandoned, abort_frame, send_transfer, first, second,
  send_with_retry,
}
use beaglewing.Clipboard.Sending.Whole.{
  IsClocked, IsTransfer, whole, cut, broken, send_transfer-IsTransfer, Accepted, IsStalled,
}
use beaglewing.Common.Chunks.{length-chunks-le}
use mathlib.Core.Path.{subst}
use beaglewing.Common.Bytes.{Bytes}
use beaglewing.Common.{
  length, length-append, chunks, ℕ, suc, ◌+◌, ◌≤◌, ◌≡◌, refl, sym, ap, ◌∙◌, Bool, false, none, some,
  List, [], ◌∷◌, ◌++◌, append-nil, append_assoc, arith,
}

feed_all-append :
    (r : Reassembler) (xs ys : List Bytes)
    → feed_all r (xs ++ ys)
      ≡ ((feed_all (feed_all r xs).0 ys).0, (feed_all r xs).1 ++ (feed_all (feed_all r xs).0 ys).1)
unfolding feed_all
feed_all-append r [] ys = refl
feed_all-append r (x ∷ xs) ys = rw (feed_all-append (feed r x).0 xs ys)

feed-abort_frame : (r : Reassembler) → (feed r abort_frame).0.active ≡ none
unfolding feed feed_parsed
feed-abort_frame r =
    let e = parse-frame_bytes t_abort 0 [] (omega arith) (omega arith) in rw (e, feed) refl

feed_all-abort_frame :
    (r : Reassembler) (xs : List Bytes) → (feed_all r (xs ++ (abort_frame ∷ []))).0.active ≡ none
unfolding feed_all
feed_all-abort_frame r xs =
    rw (feed_all-append r xs (abort_frame ∷ [])) (feed-abort_frame (feed_all r xs).0)

length-data_frames_from : (cs : List Bytes) (seq : ℕ) → length (data_frames_from seq cs) ≡ length cs
unfolding data_frames_from
length-data_frames_from [] seq = refl
length-data_frames_from (c ∷ cs) seq = ap suc (length-data_frames_from cs _)

pub length-transfer_frames-le :
    (kind : ℕ) (content : Bytes) → length (transfer_frames kind content) ≤ length content + 2
length-transfer_frames-le kind content = omega (
  arith,
  length-append (data_frames_from 0 (chunks max_payload content)) (_ ∷ []),
  length-data_frames_from (chunks max_payload content) 0,
  length-chunks-le max_payload content,
)

module _ (takes : List Bytes → Bytes → Bool) (waits again : ℕ → Wait) where
  -- What `send_with_retry` returned and what was written then to the connection, with `before`
  -- written at first, for a receiver that is in the state `r` when it gets what the last attempt
  -- sent. Either the connection took all frames of that attempt, and they hand over the content; or
  -- it took the frames of two attempts, each of which the full window then stalled and an ABORT
  -- follows, and the last leaves the receiver idle; or it refused the last frame that was tried.
  pub data IsDelivery (before : List Bytes) (kind : ℕ) (content : Bytes) (r : Reassembler)
      : Retried × List Bytes → Type 0 where
    delivered :
        {written : List Bytes} (earlier frames : List Bytes) (results : List FeedResult)
        → written ≡ before ++ (earlier ++ frames)
        → Accepted takes (before ++ earlier) frames
        → (feed_all r frames).0.active ≡ none
        → (feed_all r frames).1 ≡ results ++ (complete kind content ∷ [])
        → IsDelivery before kind content r (sent, written)
    given_up :
        {written : List Bytes} (one two : List Bytes)
        → written ≡ (before ++ (one ++ (abort_frame ∷ []))) ++ (two ++ (abort_frame ∷ []))
        → Accepted takes before one
        → Accepted takes (before ++ (one ++ (abort_frame ∷ []))) two
        → IsStalled takes waits one
        → IsStalled takes again two
        → (feed_all r (two ++ (abort_frame ∷ []))).0.active ≡ none
        → IsDelivery before kind content r (abandoned, written)
    cut_off :
        {written : List Bytes} (frames : List Bytes) (f : Bytes)
        → written ≡ before ++ (frames ++ (f ∷ []))
        → takes (before ++ frames) f ≡ false
        → IsDelivery before kind content r (gone, written)

  -- The frames of the whole transfer, after any others.
  pub whole-IsDelivery :
      (kind : ℕ) (content : Bytes) (r : Reassembler) {before written : List Bytes}
      (earlier : List Bytes)
      → length content ≤ max_transfer
      → written ≡ before ++ (earlier ++ transfer_frames kind content)
      → Accepted takes (before ++ earlier) (transfer_frames kind content)
      → IsDelivery before kind content r (sent, written)
  whole-IsDelivery kind content r earlier small e t =
      let (frames, made, fed) = feed_all-encode_transfer r kind content small in
      let same : frames ≡ transfer_frames kind content =
        cc (made, encode_transfer-eq kind content) in
      let fed' = rw same at fed in
      delivered earlier (transfer_frames kind content)
        (nothing ∷ progress_from 0 (chunks max_payload content)) e t (rw fed' refl) (rw fed' refl)

  module _ (before : List Bytes) (kind : ℕ) (content : Bytes) (r : Reassembler) where
    -- The second attempt, after one that stalled.
    pub second-IsDelivery :
        {written : List Bytes} {out : Sent × List Bytes} (xs : List Bytes) (last : ℕ)
        → length content ≤ max_transfer
        → written ≡ before ++ (xs ++ (abort_frame ∷ []))
        → Accepted takes before xs
        → IsStalled takes waits xs
        → IsTransfer takes again written (transfer_frames kind content) last out
        → IsDelivery before kind content r (second takes out)
    unfolding second
    second-IsDelivery xs last small e t q (whole f _ h) =
        whole-IsDelivery kind content r (xs ++ (abort_frame ∷ [])) small
          (f ∙ rw e (append_assoc before (xs ++ (abort_frame ∷ [])) _))
          (subst (λ z. Accepted takes z (transfer_frames kind content)) e h)
    second-IsDelivery xs last small e t q (cut ys rest _ f _ h v) =
        given_up xs ys (f ∙ ap (λ z. z ++ (ys ++ (abort_frame ∷ []))) e) t
          (subst (λ z. Accepted takes z ys) e h) q v (feed_all-abort_frame r ys)
    second-IsDelivery xs last small e t q (broken ys f rest _ g _ h bad) =
        let earlier = xs ++ (abort_frame ∷ []) in
        cut_off (earlier ++ ys) f
          (g
            ∙ (ap (λ z. z ++ (ys ++ (f ∷ []))) e
                ∙ (append_assoc before earlier (ys ++ (f ∷ []))
                    ∙ ap (λ z. before ++ z) (sym (append_assoc earlier ys (f ∷ []))))))
          (ap (λ z. takes z f) (sym (append_assoc before earlier ys) ∙ ap (λ z. z ++ ys) (sym e))
            ∙ bad)

    module _ (c : (i : ℕ) → IsClocked (waits i)) (d : (i : ℕ) → IsClocked (again i)) where
      first-IsDelivery :
          {out : Sent × List Bytes} (last : ℕ)
          → length content ≤ max_transfer
          → IsTransfer takes waits before (transfer_frames kind content) last out
          → IsDelivery before kind content r (first takes again (transfer_frames kind content) out)
      unfolding first
      first-IsDelivery last small (whole f _ t) =
          whole-IsDelivery kind content r [] small f (
            subst (λ z. Accepted takes z (transfer_frames kind content)) (sym (append-nil before))
              t)
      first-IsDelivery last small (cut xs rest _ f _ t q) = second-IsDelivery xs _ small f t q (
          send_transfer-IsTransfer takes again d _ (transfer_frames kind content)
            (omega (arith, length-transfer_frames-le kind content, small)))
      first-IsDelivery last small (broken xs f rest _ g _ t bad) = cut_off xs f g bad

      -- Sending content that is within the limit returns, and never panics, on a clock that goes on
      -- while the loop sleeps. If the result is `Ok`, the connection took every frame of the last
      -- attempt, and these frames make a receiver in any state hand over this kind and content; if
      -- both attempts are given up, each was stalled by a full window for more than five seconds,
      -- and the frames of the second with its ABORT leave the receiver idle; otherwise the
      -- connection refused the last frame that was tried.
      pub send_with_retry-IsDelivery :
          length content ≤ max_transfer
          → (out : Retried × List Bytes) × (send_with_retry takes waits again before kind content
              ≡ some out)
            × IsDelivery before kind content r out
      unfolding send_with_retry
      send_with_retry-IsDelivery small = (
        first takes again (transfer_frames kind content)
            (send_transfer takes waits before (transfer_frames kind content)),
        rw (encode_transfer-eq kind content),
        first-IsDelivery _ small (
            send_transfer-IsTransfer takes waits c before (transfer_frames kind content)
              (omega (arith, length-transfer_frames-le kind content, small))),
      )
