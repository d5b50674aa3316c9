-- ===== src/Clipboard/Sending.antt =====
-- linux/input-router/src/clipboard.rs: `send_transfer` and `send_with_retry`.
-- The relay's connection is the list of the frames written to it, oldest first; `takes` says
-- whether a write succeeds after these. What the reader thread stores in `acked` and the time are
-- given as functions of the polls.
pub mod Whole
pub mod Delivers
use beaglewing.Clipframe.Defs.{ack_window, t_abort}
use beaglewing.Clipframe.Encode.{encode_transfer}
use beaglewing.Clipframe.Frame.{frame_bytes}
use beaglewing.Common.Bytes.{Bytes}
use beaglewing.Common.{
  ltb, leb, if◌then◌else◌, ◌>>=◌, length, ℕ, zero, suc, ◌+◌, ◌-◌, ◌%◌, ◌^◌, Bool, ◌&&◌, Option,
  some, List, [], ◌∷◌, ◌++◌,
}

-- What the loop that waits for the window reads at its k-th poll: the count in `acked`, and the
-- milliseconds since it began to wait.
pub record Wait : Type 0 where
  pub loads : ℕ → ℕ
  pub elapsed : ℕ → ℕ

-- `spins` is no outcome of the source: the loop ran out of fuel.
pub data Window : Type 0 where
  opens gives_up spins : Window

-- The loop sleeps two milliseconds a round and gives up after five seconds.
abbrev pub polls : ℕ
polls = 2502

unfoldable pub stall : ℕ → Wait → ℕ → ℕ → Window
stall zero w k sent_data = spins
stall (suc fuel) w k sent_data =
    let later = stall fuel w (suc k) sent_data in
    if leb ack_window (sent_data - w.loads k)
    then (if ltb 5000 (w.elapsed k) then gives_up else later)
    else opens

-- `Ok`, and the two errors. `stuck` stands for a wait that ran out of fuel.
pub data Sent : Type 0 where
  done stalled lost stuck : Sent

-- The assertion of `frame` holds for an empty payload.
abbrev pub abort_frame : Bytes
abort_frame = frame_bytes t_abort 0 []

-- What `send_with_retry` returns: `Ok`, `Err(true)` or `Err(false)`.
pub data Retried : Type 0 where
  sent gone abandoned unfinished : Retried

-- What follows on the wait before a DATA frame; `next` is the rest of the loop.
unfoldable pub proceed : Window → Sent × List Bytes → List Bytes → Sent × List Bytes
proceed opens next written = next
proceed gives_up next written = (stalled, written ++ (abort_frame ∷ []))
proceed spins next written = (stuck, written)

module _ (takes : List Bytes → Bytes → Bool) where
  module _ (waits : ℕ → Wait) (last : ℕ) where
    -- The loop over the frames from number `i` on.
    unfoldable pub send_from : ℕ → ℕ → List Bytes → List Bytes → Sent × List Bytes
    unfolding proceed
    send_from i sent_data written [] = (done, written)
    send_from i sent_data written (f ∷ fs) =
        let after = written ++ (f ∷ []) in
        let write : ℕ → Sent × List Bytes = (λ n.
          let rest = send_from (suc i) n after fs in
          if takes written f then rest else (lost, after)) in
        if ltb 0 i && ltb i last
        then proceed (stall polls (waits i) 0 sent_data) (write ((sent_data + 1) % 2 ^ 32)) written
        else write sent_data

  unfoldable pub send_transfer : (ℕ → Wait) → List Bytes → List Bytes → Sent × List Bytes
  send_transfer waits written frames = send_from waits (length frames - 1) 0 0 written frames

  -- The second attempt.
  unfoldable pub second : Sent × List Bytes → Retried × List Bytes
  second (done, written) = (sent, written)
  second (lost, written) = (gone, written)
  second (stalled, written) = (abandoned, written)
  second (stuck, written) = (unfinished, written)

  unfoldable pub first : (ℕ → Wait) → List Bytes → Sent × List Bytes → Retried × List Bytes
  unfolding second send_transfer
  first again frames (done, written) = (sent, written)
  first again frames (lost, written) = (gone, written)
  first again frames (stalled, written) = second (send_transfer again written frames)
  first again frames (stuck, written) = (unfinished, written)

  -- `none` is the panic of the assertion in `frame`.
  unfoldable pub send_with_retry :
      (ℕ → Wait) → (ℕ → Wait) → List Bytes → ℕ → Bytes → Option (Retried × List Bytes)
  unfolding first send_transfer
  send_with_retry waits again written kind content = do
    frames ← encode_transfer kind content
    some (first again frames (send_transfer waits written frames))
