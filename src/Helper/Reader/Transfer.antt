-- ===== src/Helper/Reader/Transfer.antt =====
-- The reader hands a transfer over, and acknowledges it for the sender on the desktop.
use beaglewing.Clipframe.Defs.{ack_every, max_payload, max_transfer}
use beaglewing.Clipframe.Encode.{encode_transfer}
use beaglewing.Clipframe.Frame.{ack_frame}
use beaglewing.Clipframe.Reassembler.{
  FeedResult, nothing, ping, progress, complete, offer, pull, error, Reassembler, feed, feed_all,
}
use beaglewing.Clipframe.Encode.Frames.{transfer_frames, encode_transfer-eq}
use beaglewing.Clipframe.Reassembler.RoundTrip.{progress_from, feed_all-encode_transfer}
use beaglewing.Common.Bytes.{Bytes}
use beaglewing.Helper.Defs.{Helper}
use beaglewing.Helper.Device.{Device}
use beaglewing.Helper.Device.Wire.{hid_send-opened}
use beaglewing.Helper.Reader.{send_anyway, on_result, on_ack, on_frame, on_frames}
use beaglewing.Helper.Reader.Acks.{
  acks_from, ack_bytes, ack_frame-eq, IsNoAck, transfer_frames-IsNoAck,
}
use beaglewing.Common.{
  ◌==◌, if◌then◌else◌, Bool-cases, Option-cases, ◌>>=◌, length, All, chunks, ℕ, ◌+◌, ◌%◌, ◌≤◌, ◌≡◌,
  refl, sym, ap, ◌∙◌, inl, inr, Bool, true, Option, none, some, List, [], ◌∷◌, ◌++◌, append-nil,
  append_assoc,
}

module _ (takes : List Bytes → Bytes → Bool) where
  on_results : List FeedResult → Helper → Option Helper
  on_results [] s = some s
  on_results (x ∷ xs) s = do s' ← on_result takes x s; on_results xs s'

  abbrev with_reasm : Reassembler → Option Helper → Option Helper
  with_reasm r none = none
  with_reasm r (some s) = some (record s { reasm = r })

  send_anyway-with_reasm :
      (f : Option Bytes) (r : Reassembler) (s : Helper)
      → send_anyway takes f (record s { reasm = r }) ≡ with_reasm r (send_anyway takes f s)
  unfolding send_anyway
  send_anyway-with_reasm none r s = refl
  send_anyway-with_reasm (some f) r s = refl

  on_result-with_reasm :
      (x : FeedResult) (r : Reassembler) (s : Helper)
      → on_result takes x (record s { reasm = r }) ≡ with_reasm r (on_result takes x s)
  unfolding on_result
  on_result-with_reasm nothing r s = refl
  on_result-with_reasm ping r s = send_anyway-with_reasm _ r s
  on_result-with_reasm (progress n) r s = elim (Bool-cases (n % ack_every == 0)) [
    | inl due ↦ rw due (send_anyway-with_reasm (ack_frame n) r s)
    | inr not_due ↦ rw not_due refl
  ]
  on_result-with_reasm (complete kind content) r s = refl
  on_result-with_reasm (offer o) r s = refl
  on_result-with_reasm (pull id) r s = refl
  on_result-with_reasm (error e) r s = refl

  on_results-with_reasm :
      (xs : List FeedResult) (r q : Reassembler) (s : Helper)
      → with_reasm q (on_results xs (record s { reasm = r })) ≡ with_reasm q (on_results xs s)
  unfolding on_results
  on_results-with_reasm [] r q s = refl
  on_results-with_reasm (x ∷ xs) r q s = elim (Option-cases (on_result takes x s)) [
    | inl stopped ↦ rw (on_result-with_reasm x r s, stopped) refl
    | inr (t, ran) ↦ rw (on_result-with_reasm x r s, ran) (on_results-with_reasm xs r q t)
  ]

  -- Frames that are no ACKs are handled one after the other as the receiver's results are.
  on_frames-eq :
      (fs : List Bytes) (s : Helper)
      → All IsNoAck fs
      → on_frames takes fs s
        ≡ with_reasm (feed_all s.reasm fs).0 (on_results (feed_all s.reasm fs).1 s)
  unfolding on_frames on_frame on_ack feed_all on_results
  on_frames-eq [] s h = refl
  on_frames-eq (f ∷ fs) s (h, hs) =
      let r = (feed s.reasm f).0 in
      let x = (feed s.reasm f).1 in
      elim (Option-cases (on_result takes x s)) [
        | inl stopped ↦ rw (h, on_ack) (rw (on_result-with_reasm x r s, stopped) refl)
        | inr (t, ran) ↦
            rw (h, on_ack)
              (rw (on_result-with_reasm x r s, ran)
                (on_frames-eq fs (record t { reasm = r }) hs
                  ∙ on_results-with_reasm (feed_all r fs).1 r (feed_all r fs).0 t))
      ]

  module _ (taken : (written : List Bytes) (f : Bytes) → takes written f ≡ true) where
    abbrev pub wrote : List Bytes → Device → Device
    wrote fs d = record d { written = d.written ++ fs }

    on_progress :
        (n : ℕ) (s : Helper)
        → s.dev.opened ≡ true
        → on_result takes (progress n) s
          ≡ some
              (record s { dev = wrote (if n % ack_every == 0 then ack_bytes n ∷ [] else []) s.dev })
    unfolding on_result send_anyway
    on_progress n s h = elim (Bool-cases (n % ack_every == 0)) [
      | inl due ↦
          rw
            (
              due,
              ack_frame-eq n,
              hid_send-opened takes (ack_bytes n) s.dev h,
              taken s.dev.written (ack_bytes n),
            )
            (ap
              (λ z. some (record s {
                dev = record { opened = z; written = s.dev.written ++ (ack_bytes n ∷ []) };
              }))
              (sym h))
      | inr not_due ↦ rw (not_due, append-nil s.dev.written) refl
    ]

    acks_regroup :
        (before : List Bytes) (k : ℕ) (fs : List Bytes)
        → (before ++ (if (k + 1) % ack_every == 0 then ack_bytes (k + 1) ∷ [] else [])) ++ fs
          ≡ before ++ (if (k + 1) % ack_every == 0 then ack_bytes (k + 1) ∷ fs else fs)
    acks_regroup before k fs = elim (Bool-cases ((k + 1) % ack_every == 0)) [
      | inl due ↦ rw due (append_assoc before (ack_bytes (k + 1) ∷ []) fs)
      | inr not_due ↦ rw (not_due, append-nil before) refl
    ]

    on_results-progress :
        (cs : List Bytes) (k : ℕ) (ys : List FeedResult) (s : Helper)
        → s.dev.opened ≡ true
        → on_results (progress_from k cs ++ ys) s
          ≡ on_results ys (record s { dev = wrote (acks_from k cs) s.dev })
    unfolding on_results acks_from
    on_results-progress [] k ys s h = rw (append-nil s.dev.written) refl
    on_results-progress (c ∷ cs) k ys s h =
        let now = if (k + 1) % ack_every == 0 then ack_bytes (k + 1) ∷ [] else [] in
        let after = on_results-progress cs (k + 1) ys (record s { dev = wrote now s.dev }) h in
        rw (on_progress (k + 1) s h) (
          after
          ∙ ap (λ z. on_results ys (record s { dev = record s.dev { written = z } }))
              (acks_regroup s.dev.written k (acks_from (k + 1) cs)))

    on_results-transfer :
        (s : Helper) (kind : ℕ) (content : Bytes)
        → s.dev.opened ≡ true
        → on_results
            (nothing
              ∷ (progress_from 0 (chunks max_payload content) ++ (complete kind content ∷ [])))
            s
          ≡ some (record s {
            queue = s.queue ++ ((kind, content) ∷ []);
            dev = wrote (acks_from 0 (chunks max_payload content)) s.dev;
          })
    unfolding on_results on_result
    on_results-transfer s kind content h =
        on_results-progress (chunks max_payload content) 0 (complete kind content ∷ []) s h

    -- Reading the frames of a transfer within the limit, one after the other, on devices that work,
    -- never panics, whatever the receiver was doing. The content is handed to the applier behind
    -- all that waits there, an ACK is written for each 128 chunks, and nothing else changes but the
    -- receiver.
    pub on_frames-transfer :
        (s : Helper) (kind : ℕ) (content : Bytes)
        → s.dev.opened ≡ true
        → length content ≤ max_transfer
        → (frames : List Bytes) × (encode_transfer kind content ≡ some frames)
          × (on_frames takes frames s
              ≡ some (record s {
                reasm = record { active = none; data_frames = length (chunks max_payload content) };
                queue = s.queue ++ ((kind, content) ∷ []);
                dev = wrote (acks_from 0 (chunks max_payload content)) s.dev;
              }))
    on_frames-transfer s kind content h small =
        let (frames, made, fed) = feed_all-encode_transfer s.reasm kind content small in
        let same : frames ≡ transfer_frames kind content =
          cc (made, encode_transfer-eq kind content) in
        let no_acks : All IsNoAck frames = rw same (transfer_frames-IsNoAck kind content) in
        (
          frames,
          made,
          on_frames-eq frames s no_acks
              ∙ ap (λ z. with_reasm z.0 (on_results z.1 s)) fed
              ∙ ap (with_reasm _) (on_results-transfer s kind content h),
        )
