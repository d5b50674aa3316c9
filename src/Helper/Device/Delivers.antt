-- ===== src/Helper/Device/Delivers.antt =====
-- What a receiver gets from the helper's sender.
use beaglewing.Helper.Device.Wire.{
  on_wire, hid_send-opened, attempt-on_wire, first-on_wire, attempt-closed,
}
use beaglewing.Clipboard.Sending as Linux
use beaglewing.Clipboard.Sending.{
  Wait, Sent, done, stalled, lost, stuck, Retried, sent, abandoned, unfinished, abort_frame, gone,
  Window, opens, gives_up, spins, polls, stall,
}
use beaglewing.Clipboard.Sending.Delivers.{
  IsDelivery, cut_off, whole-IsDelivery, second-IsDelivery, length-transfer_frames-le,
}
use beaglewing.Clipboard.Sending.Whole.{
  IsClocked, IsTransfer, Accepted, whole, cut, broken, send_transfer-IsTransfer,
}
use beaglewing.Clipframe.Defs.{max_transfer}
use beaglewing.Clipframe.Encode.{encode_transfer}
use beaglewing.Clipframe.Encode.Frames.{transfer_frames, encode_transfer-eq}
use beaglewing.Clipframe.Reassembler.{Reassembler}
use mathlib.Core.Path.{subst}
use beaglewing.Common.Bytes.{Bytes}
use beaglewing.Helper.Device.{
  send_frames, first, second, Device, attempt, hid_send, proceed, send_from, send_on,
}
use beaglewing.Common.{
  ltb, if◌then◌else◌, Bool-cases, if-cases, length, take, length-append, take-length-append, ℕ, suc,
  ◌+◌, ◌-◌, ◌%◌, ◌^◌, ◌≤◌, ◌≡◌, ◌≢◌, ◌⊎◌, refl, sym, ap, ◌∙◌, inl, inr, Bool, true, false, ◌&&◌,
  some, List, [], ◌∷◌, ◌++◌, append-nil, append_assoc, arith,
}

module _ (takes : List Bytes → Bytes → Bool) where
  -- A sender that lost a frame has dropped the device.
  abbrev Drops : Sent × Device → Type 0
  Drops o = o.0 ≡ lost → o.1.opened ≡ false

  hid_send_failed :
      (f : Bytes) (d : Device)
      → (hid_send takes f d).1 ≡ false
      → (hid_send takes f d).0.opened ≡ false
  unfolding hid_send
  hid_send_failed f d h = elim (Bool-cases d.opened) [
    | inl e ↦ rw (e, send_on) (rw (e, send_on) at h)
    | inr e ↦ rw (e, send_on) refl
  ]

  module _ (waits : ℕ → Wait) (last : ℕ) where
    proceed-Drops :
        (x : Sent × Device) (w : Window) (d : Device) → Drops x → Drops (proceed takes w x d)
    unfolding proceed
    proceed-Drops x opens d k = k
    proceed-Drops x gives_up d k = λ z. absurd (cc)
    proceed-Drops x spins d k = λ z. absurd (cc)

    send_from-Drops :
        (i n : ℕ) (d : Device) (fs : List Bytes) → Drops (send_from takes waits last i n d fs)
    unfolding send_from
    send_from-Drops i n d [] = λ z. absurd (cc)
    send_from-Drops i n d (f ∷ fs) =
        let write : (m : ℕ)
            → Drops (
                if (hid_send takes f d).1
                then send_from takes waits last (suc i) m (hid_send takes f d).0 fs
                else (lost, (hid_send takes f d).0)) =
          (λ m.
            if-cases Drops (hid_send takes f d).1
              (λ _. send_from-Drops (suc i) m (hid_send takes f d).0 fs)
              (λ h z. hid_send_failed f d h)) in
        if-cases Drops (ltb 0 i && ltb i last)
          (λ _. proceed-Drops _ (stall polls (waits i) 0 n) d (write ((n + 1) % 2 ^ 32)))
          (λ _. write n)

  attempt-Drops :
      (waits : ℕ → Wait) (d : Device) (frames : List Bytes) → Drops (attempt takes waits d frames)
  unfolding attempt
  attempt-Drops waits d frames = send_from-Drops waits (length frames - 1) 0 0 d frames

  second_gone :
      (x : Sent) (d : Device)
      → Drops (x, d)
      → (second takes (x, d)).0 ≡ gone
      → (second takes (x, d)).1.opened ≡ false
  unfolding second
  second_gone done d k h = absurd (cc)
  second_gone stalled d k h = absurd (cc)
  second_gone stuck d k h = absurd (cc)
  second_gone lost d k h = k refl

  first_gone :
      (again : ℕ → Wait) (frames : List Bytes) (x : Sent) (d : Device)
      → Drops (x, d)
      → (first takes again frames (x, d)).0 ≡ gone
      → (first takes again frames (x, d)).1.opened ≡ false
  unfolding first
  first_gone again frames done d k h = absurd (cc)
  first_gone again frames stuck d k h = absurd (cc)
  first_gone again frames lost d k h = k refl
  first_gone again frames stalled d k h =
      second_gone (attempt takes again d frames).0 (attempt takes again d frames).1
        (attempt-Drops again d frames) h

  told_gone :
      (x : Retried) (d : Device) → (x ≡ gone → d.opened ≡ false) → (x ≢ gone) ⊎ (d.opened ≡ false)
  told_gone Retried.sent d k = inl (λ e. cc)
  told_gone Retried.gone d k = inr (k refl)
  told_gone Retried.abandoned d k = inl (λ e. cc)
  told_gone Retried.unfinished d k = inl (λ e. cc)

  -- When `send_frames` ends with a lost frame, the device is dropped.
  pub send_frames_gone :
      (waits again : ℕ → Wait) (frames : List Bytes) (d : Device)
      → ((send_frames takes waits again frames d).0 ≢ gone)
        ⊎ ((send_frames takes waits again frames d).1.opened ≡ false)
  unfolding send_frames
  send_frames_gone waits again frames d =
      let o = attempt takes waits d frames in
      told_gone (first takes again frames o).0 (first takes again frames o).1
        (first_gone again frames o.0 o.1 (attempt-Drops waits d frames))

  -- A sender that stalled wrote an ABORT last, and the device is open if that was taken.
  abbrev Aborts : Sent × Device → Type 0
  Aborts o =
      o.0 ≡ stalled
      → (w : List Bytes) × (o.1.written ≡ w ++ (abort_frame ∷ []))
        × (o.1.opened ≡ takes w abort_frame)

  wrote_same : (xs ys : List Bytes) → xs ++ (abort_frame ∷ []) ≡ ys ++ (abort_frame ∷ []) → xs ≡ ys
  wrote_same xs ys h =
      let n : length xs ≡ length ys = omega (
        arith,
        length-append xs (abort_frame ∷ []),
        length-append ys (abort_frame ∷ []),
        ap length h,
      ) in
      sym (take-length-append xs (abort_frame ∷ []))
      ∙ (ap (take (length xs)) h
          ∙ (ap (λ z. take z (ys ++ (abort_frame ∷ []))) n
              ∙ take-length-append ys (abort_frame ∷ [])))

  module _ (waits : ℕ → Wait) (last : ℕ) where
    proceed-Aborts :
        (x : Sent × Device) (w : Window) (d : Device)
        → d.opened ≡ true
        → Aborts x
        → Aborts (proceed takes w x d)
    unfolding proceed
    proceed-Aborts x opens d o k = k
    proceed-Aborts x gives_up d o k =
        λ z. rw (hid_send-opened takes abort_frame d o) (d.written, refl, refl)
    proceed-Aborts x spins d o k = λ z. absurd (cc)

    send_from-Aborts :
        (i n : ℕ) (d : Device) (fs : List Bytes)
        → d.opened ≡ true
        → Aborts (send_from takes waits last i n d fs)
    unfolding send_from
    send_from-Aborts i n d [] o = λ z. absurd (cc)
    send_from-Aborts i n d (f ∷ fs) o =
        let write : (m : ℕ)
            → Aborts (
                if (hid_send takes f d).1
                then send_from takes waits last (suc i) m (hid_send takes f d).0 fs
                else (lost, (hid_send takes f d).0)) =
          (λ m. elim (Bool-cases (takes d.written f)) [
            | inl ok ↦
                rw (hid_send-opened takes f d o, ok)
                  (send_from-Aborts (suc i) m
                    (record { opened = true; written = d.written ++ (f ∷ []) }) fs refl)
            | inr bad ↦ rw (hid_send-opened takes f d o, bad) (λ z. absurd (cc))
          ]) in
        if-cases Aborts (ltb 0 i && ltb i last)
          (λ _. proceed-Aborts _ (stall polls (waits i) 0 n) d o (write ((n + 1) % 2 ^ 32)))
          (λ _. write n)

  module _ (waits again : ℕ → Wait) (c : (i : ℕ) → IsClocked (waits i))
      (e : (i : ℕ) → IsClocked (again i)) (before : List Bytes) (kind : ℕ) (content : Bytes)
      (r : Reassembler) where
    -- What the device holds tells whether the ABORT after a stalled attempt was taken.
    first-IsDelivery :
        (x : Sent) {w : List Bytes} (d : Device) (last : ℕ)
        → length content ≤ max_transfer
        → w ≡ d.written
        → Aborts (x, d)
        → IsTransfer takes waits before (transfer_frames kind content) last (x, w)
        → IsDelivery takes waits again before kind content r
            (on_wire (first takes again (transfer_frames kind content) (x, d)))
    unfolding first second Linux.first
    first-IsDelivery done d last small same ab (whole f _ t) =
        whole-IsDelivery takes waits again kind content r [] small (sym same ∙ f)
          (subst (λ z. Accepted takes z (transfer_frames kind content)) (sym (append-nil before)) t)
    first-IsDelivery lost d last small same ab (broken xs f rest _ g _ t bad) =
        cut_off xs f (sym same ∙ g) bad
    first-IsDelivery stalled d last small same ab (cut xs rest _ f _ t q) =
        elim (Bool-cases d.opened) [
          | inl still ↦
              subst (IsDelivery takes waits again before kind content r)
                (sym
                  (first-on_wire takes again (transfer_frames kind content) stalled d (λ z. still)))
                (second-IsDelivery takes waits again before kind content r xs _ small (sym same ∙ f)
                  t q
                  (send_transfer-IsTransfer takes again e _ (transfer_frames kind content)
                    (omega (arith, length-transfer_frames-le kind content, small))))
          | inr dropped ↦
              let nothing_sent : attempt takes again d (transfer_frames kind content) ≡ (lost, d) =
                attempt-closed takes again d (transfer_frames kind content) (omega arith) dropped in
              subst
                (λ z. IsDelivery takes waits again before kind content r (on_wire (second takes z)))
                (sym nothing_sent)
                (let (w0, wrote, kept) = ab refl in
                  let here =
                    wrote_same (before ++ xs) w0
                      (append_assoc before xs (abort_frame ∷ []) ∙ sym (sym same ∙ f) ∙ wrote) in
                  cut_off xs abort_frame (sym same ∙ f)
                    (ap (λ z. takes z abort_frame) here ∙ sym kept ∙ dropped))
        ]
    first-IsDelivery stuck d last small same ab t = elim t [ ]

    -- Sending content that is within the limit on an open device returns, on a clock that goes on
    -- while the loop sleeps. If the result is true, the device took every frame of the last attempt,
    -- and these make a receiver in any state hand over this kind and content; if both attempts were
    -- given up, each was stalled by a full window for more than five seconds, and the last frames
    -- leave the receiver idle; otherwise the device refused the last frame that was tried, and it is
    -- dropped.
    pub send_frames-IsDelivery :
        (d : Device)
        → length content ≤ max_transfer
        → d.opened ≡ true
        → d.written ≡ before
        → (frames : List Bytes) × (encode_transfer kind content ≡ some frames)
          × IsDelivery takes waits again before kind content r
              (on_wire (send_frames takes waits again frames d))
          × (((send_frames takes waits again frames d).0 ≢ gone)
              ⊎ ((send_frames takes waits again frames d).1.opened ≡ false))
    unfolding send_frames attempt
    send_frames-IsDelivery d small h b = (
      transfer_frames kind content,
      encode_transfer-eq kind content,
      first-IsDelivery (attempt takes waits d (transfer_frames kind content)).0
          (attempt takes waits d (transfer_frames kind content)).1 _ small refl
          (send_from-Aborts waits (length (transfer_frames kind content) - 1) 0 0 d
            (transfer_frames kind content) h)
          (subst (IsTransfer takes waits before (transfer_frames kind content) _)
            (sym (
              attempt-on_wire takes waits d (transfer_frames kind content) h
              ∙ ap (λ z. Linux.send_transfer takes waits z (transfer_frames kind content)) b))
            (send_transfer-IsTransfer takes waits c before (transfer_frames kind content)
              (omega (arith, length-transfer_frames-le kind content, small)))),
      send_frames_gone waits again (transfer_frames kind content) d,
    )
