-- ===== src/Clipboard/Agent/Acks.antt =====
-- The agent's acknowledgements keep the sender's window open.
use beaglewing.Clipboard.Agent.{Agent, Outside, on_result, write}
use beaglewing.Clipboard.Sending.{Wait, opens, polls, stall}
use beaglewing.Clipframe.Defs.{ack_every, ack_window}
use beaglewing.Clipframe.Frame.{parse_ack}
use beaglewing.Clipframe.Frame.Layout.{parse_ack-ack_frame}
use beaglewing.Clipframe.Reassembler.{FeedResult, progress}
use beaglewing.Clipframe.Reassembler.RoundTrip.{progress_from}
use beaglewing.Common.Bytes.{Bytes}
use beaglewing.Common.{
  leb, ◌==◌, if◌then◌else◌, Bool-cases, ◌>>=◌, length, ℕ, suc, ◌+◌, ◌-◌, ◌%◌, ◌^◌, ◌≤◌, ◌<◌, ◌≡◌,
  refl, sym, ap, ◌∙◌, inl, inr, Bool, false, Option, none, some, List, [], ◌∷◌, ◌++◌, append-nil,
  append_assoc, arith,
}

abbrev pub latest : Option ℕ → ℕ → ℕ
latest none count = count
latest (some n) count = n

-- What the sender's reader thread stores for these frames, `count` before them.
unfoldable pub counted : ℕ → List Bytes → ℕ
counted count [] = count
counted count (f ∷ fs) = counted (latest (parse_ack f) count) fs

counted-append :
    (xs : List Bytes) (count : ℕ) (ys : List Bytes)
    → counted count (xs ++ ys) ≡ counted (counted count xs) ys
unfolding counted
counted-append [] count ys = refl
counted-append (x ∷ xs) count ys = counted-append xs _ ys

pub stall-opens :
    (fuel : ℕ) (w : Wait) (k n : ℕ) → n < w.loads k + ack_window → stall (suc fuel) w k n ≡ opens
unfolding stall
stall-opens fuel w k n h =
    let free : leb ack_window (n - w.loads k) ≡ false = ground (arith, h) in rw free refl

module _ (takes : List Bytes → Bytes → Bool) (trim lossy : Bytes → Bytes) (w : Outside) where
  -- The handling of results in order.
  unfoldable pub on_results : List FeedResult → Agent → Option Agent
  on_results [] a = some a
  on_results (x ∷ xs) a = do (b, what) ← on_result takes trim lossy w x a; on_results xs b

  -- What the handling of progress `n` writes: an ACK for each `ack_every` frames.
  progress-acks :
      (n : ℕ) (a : Agent)
      → n < 2 ^ 32
      → (acks : List Bytes) × (on_result takes trim lossy w (progress n) a
          ≡ some (record a { written = a.written ++ acks }, none))
        × ((count : ℕ) → counted count acks ≡ (if n % ack_every == 0 then n else count))
  unfolding on_result write counted
  progress-acks n a small = elim (Bool-cases (n % ack_every == 0)) [
    | inl due ↦
        let (f, made, back) = parse_ack-ack_frame n small in
        (f ∷ [], rw (due, made) refl, λ count. rw due (ap (λ z. latest z count) back))
    | inr not_due ↦ ([], rw (not_due, append-nil) refl, λ count. rw not_due refl)
  ]

  on_results-acks :
      (cs : List Bytes) (k : ℕ) (a : Agent)
      → k + length cs < 2 ^ 32
      → (b : Agent) × (acks : List Bytes) × (on_results (progress_from k cs) a ≡ some b)
        × (b.written ≡ a.written ++ acks)
        × (counted (k - k % ack_every) acks ≡ k + length cs - (k + length cs) % ack_every)
  unfolding on_results counted
  on_results-acks [] k a h = (a, [], refl, sym (append-nil a.written), omega arith)
  on_results-acks (c ∷ cs) k a h =
      let (first, run, counts) = progress-acks (k + 1) a (omega (arith, h)) in
      let (b, later, runs, wrote, total) =
        on_results-acks cs (k + 1) (record a { written = a.written ++ first }) (omega (arith, h)) in
      let step : counted (k - k % ack_every) first ≡ k + 1 - (k + 1) % ack_every =
        counts (k - k % ack_every) ∙ ground arith in
      let same : k + 1 + length cs ≡ k + suc (length cs) = omega arith in
      (
        b,
        first ++ later,
        rw run runs,
        wrote ∙ append_assoc a.written first later,
        counted-append first _ later ∙ rw step (total ∙ ap (λ z. z - z % ack_every) same),
      )

  -- When the agent has handled the results that its receiver reports for the first DATA frames of a
  -- transfer, fewer than 2 ^ 32, the ACK frames that it wrote for them keep the sender going: the
  -- newest of them counts no more frames than arrived, and once its count is loaded, the wait
  -- before the next DATA frame opens at the first poll.
  pub on_results-opens :
      (cs : List Bytes) (a : Agent) (elapsed : ℕ → ℕ)
      → length cs < 2 ^ 32
      → (b : Agent) × (acks : List Bytes) × (on_results (progress_from 0 cs) a ≡ some b)
        × (b.written ≡ a.written ++ acks)
        × (counted 0 acks ≤ length cs)
        × (stall polls (record { loads = λ k. counted 0 acks; elapsed = elapsed }) 0 (length cs)
            ≡ opens)
  on_results-opens cs a elapsed h =
      let (b, acks, runs, wrote, total) = on_results-acks cs 0 a (omega (arith, h)) in
      (
        b,
        acks,
        runs,
        wrote,
        omega (arith, total),
        stall-opens 2501 (record { loads = λ k. counted 0 acks; elapsed = elapsed }) 0 (length cs)
            (omega (arith, total)),
      )
