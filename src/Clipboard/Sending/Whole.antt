-- ===== src/Clipboard/Sending/Whole.antt =====
-- What a transfer has written when it ends, and that the window was respected.
use beaglewing.Clipframe.Defs.{ack_window}
use beaglewing.Clipboard.Sending.{
  send_transfer, proceed, lost, stalled, abort_frame, done, send_from, Sent, Wait, Window, opens,
  gives_up, polls, stall,
}
use mathlib.Core.Path.{subst}
use beaglewing.Common.Bytes.{Bytes}
use beaglewing.Common.{
  ltb, leb, ◌==◌, if◌then◌else◌, if-cases, length, length-append, ℕ, zero, suc, ◌+◌, ◌-◌, ◌*◌, ◌%◌,
  ◌^◌, ◌≤◌, ◌<◌, ◌≡◌, refl, sym, ap, ◌∙◌, Bool, true, false, ◌&&◌, ◌||◌, List, [], ◌∷◌, ◌++◌,
  append-nil, append_assoc, arith,
}

-- The wait of a frame: its first and last frames have none, and each DATA frame, the j-th, was
-- written once a load of `acked` had counted all but at most `ack_window` of the frames so far.
pub data IsOpened (w : Wait) (last j : ℕ) : Type 0 where
  first_frame : j ≡ 0 → IsOpened w last j
  last_frame : last ≤ j → IsOpened w last j
  data_frame : (k : ℕ) → j ≤ w.loads k + ack_window → IsOpened w last j

-- The time goes on while the loop sleeps.
pub record IsClocked (w : Wait) : Type 0 where
  pub sleeps : (k : ℕ) → 2 * k ≤ w.elapsed k

module _ (w : Wait) (c : IsClocked w) where
  -- What a wait comes to.
  pub data IsWaited (sent_data : ℕ) : Window → Type 0 where
    opened : (k : ℕ) → sent_data < w.loads k + ack_window → IsWaited sent_data opens
    refused :
        (k : ℕ)
        → ack_window ≤ sent_data - w.loads k
        → 5000 < w.elapsed k
        → IsWaited sent_data gives_up

  stall-IsWaited :
      (fuel k sent_data : ℕ)
      → k < polls
      → fuel + k ≡ polls
      → IsWaited sent_data (stall fuel w k sent_data)
  unfolding stall
  stall-IsWaited zero k sent_data h e = absurd (omega arith)
  stall-IsWaited (suc fuel) k sent_data h e =
      let P = IsWaited sent_data in
      if-cases P (leb ack_window (sent_data - w.loads k))
        (λ full.
          if-cases P (ltb 5000 (w.elapsed k)) (λ late. refused k (ground arith) (ground arith))
            (λ early.
              stall-IsWaited fuel (suc k) sent_data (ground (arith, c.sleeps k)) (omega arith)))
        (λ free. opened k (ground arith))

-- Each of the frames is taken by the connection, when they are written after `written`.
abbrev pub Accepted : (List Bytes → Bytes → Bool) → List Bytes → List Bytes → Type 0
Accepted takes written [] = Unit {0}
Accepted takes written (f ∷ fs) = (takes written f ≡ true) × Accepted takes (written ++ (f ∷ [])) fs

pub Accepted-append :
    (takes : List Bytes → Bytes → Bool) (written xs ys : List Bytes)
    → Accepted takes written xs
    → Accepted takes (written ++ xs) ys
    → Accepted takes written (xs ++ ys)
Accepted-append takes written [] ys h k = subst (λ z. Accepted takes z ys) (append-nil written) k
Accepted-append takes written (x ∷ xs) ys h k = (
  h.0,
  Accepted-append takes (written ++ (x ∷ [])) xs ys h.1
      (subst (λ z. Accepted takes z ys) (sym (append_assoc written (x ∷ []) xs)) k),
)

module _ (takes : List Bytes → Bytes → Bool) (waits : ℕ → Wait) where
  -- The window was respected for the first n frames.
  abbrev pub Windowed : ℕ → ℕ → Type 0
  Windowed last zero = Unit
  Windowed last (suc n) = Windowed last n × IsOpened (waits n) last n

  -- After these frames of a transfer the window was full for more than five seconds.
  pub record IsStalled (some_frames : List Bytes) : Type 0 where
    pub poll : ℕ
    pub full : ack_window ≤ length some_frames - 1 - (waits (length some_frames)).loads poll
    pub late : 5000 < (waits (length some_frames)).elapsed poll

  -- How a transfer of `frames` ends on a connection with `before` written to it: with all frames
  -- written in order and taken; with the first of them taken and an ABORT, when the frames that
  -- were not counted filled the window for five seconds; or with the first of them taken and the
  -- next one refused.
  pub data IsTransfer (before frames : List Bytes) (last : ℕ) : Sent × List Bytes → Type 0 where
    whole :
        {written : List Bytes}
        → written ≡ before ++ frames
        → Windowed last (length frames)
        → Accepted takes before frames
        → IsTransfer before frames last (done, written)
    cut :
        {written : List Bytes} (some_frames rest : List Bytes)
        → frames ≡ some_frames ++ rest
        → written ≡ before ++ (some_frames ++ (abort_frame ∷ []))
        → Windowed last (length some_frames)
        → Accepted takes before some_frames
        → IsStalled some_frames
        → IsTransfer before frames last (stalled, written)
    broken :
        {written : List Bytes} (some_frames : List Bytes) (f : Bytes) (rest : List Bytes)
        → frames ≡ some_frames ++ (f ∷ rest)
        → written ≡ before ++ (some_frames ++ (f ∷ []))
        → Windowed last (length (some_frames ++ (f ∷ [])))
        → Accepted takes before some_frames
        → takes (before ++ some_frames) f ≡ false
        → IsTransfer before frames last (lost, written)

module _ (takes : List Bytes → Bytes → Bool) (waits : ℕ → Wait)
    (c : (i : ℕ) → IsClocked (waits i)) where
  module _ (before frames : List Bytes) (last : ℕ) (small : last < 2 ^ 32) where
    -- The loop when it has written `pre`, its first frames.
    record IsAt (i sent_data : ℕ) (written pre fs : List Bytes) : Type 0 where
      at_frame : i ≡ length pre
      counted : (ltb last i || sent_data == i - 1) ≡ true
      so_far : written ≡ before ++ pre
      splits : frames ≡ pre ++ fs
      windowed : Windowed takes waits last (length pre)
      accepted : Accepted takes before pre

    next-Windowed :
        {i n : ℕ} {written pre fs : List Bytes} (f : Bytes)
        → IsAt i n written pre (f ∷ fs)
        → IsOpened (waits i) last i
        → Windowed takes waits last (length (pre ++ (f ∷ [])))
    next-Windowed {i} {n} {written} {pre} {fs} f a w =
        let longer : suc (length pre) ≡ length (pre ++ (f ∷ [])) =
          omega (arith, length-append pre (f ∷ [])) in
        subst (Windowed takes waits last) longer
          (a.windowed, subst (λ j. IsOpened (waits j) last j) a.at_frame w)

    next-IsAt :
        {i n m : ℕ} {written pre fs : List Bytes} (f : Bytes)
        → IsAt i n written pre (f ∷ fs)
        → IsOpened (waits i) last i
        → (ltb last (suc i) || m == i) ≡ true
        → takes written f ≡ true
        → IsAt (suc i) m (written ++ (f ∷ [])) (pre ++ (f ∷ [])) fs
    next-IsAt {i} {n} {m} {written} {pre} {fs} f a w h t = record {
      at_frame = omega (arith, a.at_frame, length-append pre (f ∷ []));
      counted = ground (arith, h);
      so_far = rw a.so_far (append_assoc before pre (f ∷ []));
      splits = a.splits ∙ sym (append_assoc pre (f ∷ []) fs);
      windowed = next-Windowed f a w;
      accepted = Accepted-append takes before pre (f ∷ []) a.accepted (rw (← a.so_far) t, tt);
    }

    proceed-IsTransfer :
        {i n : ℕ} {written pre fs : List Bytes} {x : Window} {next : Sent × List Bytes}
        → IsAt i n written pre fs
        → (ltb 0 i && ltb i last) ≡ true
        → IsWaited (waits i) (c i) n x
        → (IsOpened (waits i) last i → IsTransfer takes waits before frames last next)
        → IsTransfer takes waits before frames last (proceed x next written)
    unfolding proceed
    proceed-IsTransfer a d (opened k h) go = go (data_frame k (ground (arith, a.counted)))
    proceed-IsTransfer {i} {n} {written} {pre} {fs} a d (refused k h late) go =
        let stuffed : (ack_window ≤ length pre - 1 - (waits (length pre)).loads k)
            × (5000 < (waits (length pre)).elapsed k) =
          subst (λ j. (ack_window ≤ j - 1 - (waits j).loads k) × (5000 < (waits j).elapsed k))
            a.at_frame (ground (arith, h, a.counted, d), late) in
        cut pre fs a.splits (rw a.so_far (append_assoc before pre (abort_frame ∷ []))) a.windowed
          a.accepted (record { poll = k; full = stuffed.0; late = stuffed.1 })

    edge-IsOpened : (i : ℕ) → (ltb 0 i && ltb i last) ≡ false → IsOpened (waits i) last i
    edge-IsOpened zero d = first_frame refl
    edge-IsOpened (suc i) d = last_frame (ground arith)

    send_from-IsTransfer :
        (i n : ℕ) (written pre fs : List Bytes)
        → IsAt i n written pre fs
        → IsTransfer takes waits before frames last (send_from takes waits last i n written fs)
    unfolding send_from
    send_from-IsTransfer i n written pre [] a =
        let all : frames ≡ pre = a.splits ∙ append-nil pre in
        whole (a.so_far ∙ ap (λ z. before ++ z) (sym all))
          (subst (λ z. Windowed takes waits last (length z)) (sym all) a.windowed)
          (subst (Accepted takes before) (sym all) a.accepted)
    send_from-IsTransfer i n written pre (f ∷ fs) a =
        let write : (m : ℕ)
            → IsOpened (waits i) last i
            → (ltb last (suc i) || m == i) ≡ true
            → IsTransfer takes waits before frames last (
                if takes written f
                then send_from takes waits last (suc i) m (written ++ (f ∷ [])) fs
                else (lost, written ++ (f ∷ []))) =
          (λ m w h.
            if-cases (IsTransfer takes waits before frames last) (takes written f)
              (λ t.
                send_from-IsTransfer (suc i) m (written ++ (f ∷ [])) (pre ++ (f ∷ [])) fs
                  (next-IsAt f a w h t))
              (λ t.
                broken pre f fs a.splits (rw a.so_far (append_assoc before pre (f ∷ [])))
                  (next-Windowed f a w) a.accepted (rw (← a.so_far) t))) in
        if-cases (IsTransfer takes waits before frames last) (ltb 0 i && ltb i last)
          (λ d.
            proceed-IsTransfer a d
              (stall-IsWaited (waits i) (c i) polls 0 n (omega arith) (omega arith))
              (λ w. write ((n + 1) % 2 ^ 32) w (ground (arith, a.counted, d, small))))
          (λ d. write n (edge-IsOpened i d) (ground (arith, a.counted, d)))

  -- A transfer of at most 2 ^ 32 frames ends, on a clock that goes on while the loop sleeps: its
  -- waits never run out of fuel. It is `Ok` with all frames written in order, each of which the
  -- connection took; or the receiver left the window full for more than five seconds, and an ABORT
  -- follows on the frames so far, all taken; or the first frames were taken, the connection refused
  -- the next one, which is the last that is tried, and it is lost. Each frame between the first and the last, number j,
  -- was written only once a load of `acked` was at least j - `ack_window`.
  pub send_transfer-IsTransfer :
      (before frames : List Bytes)
      → length frames ≤ 2 ^ 32
      → IsTransfer takes waits before frames
          (length frames - 1)
          (send_transfer takes waits before frames)
  unfolding send_transfer
  send_transfer-IsTransfer before frames h =
      send_from-IsTransfer before frames (length frames - 1) (omega (arith, h)) 0 0 before [] frames
        (record {
          at_frame = refl;
          counted = ground arith;
          so_far = sym (append-nil before);
          splits = refl;
          windowed = tt;
          accepted = tt;
        })
