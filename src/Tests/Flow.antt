-- ===== src/Tests/Flow.antt =====
-- Runs of the windowed sender of linux/input-router/src/clipboard.rs, and its theorems at concrete
-- data.
use beaglewing.Clipboard.Agent.{Agent, Outside}
use beaglewing.Clipboard.Agent.Acks.{counted, on_results, on_results-opens}
use beaglewing.Clipboard.Session.{begun}
use beaglewing.Clipboard.Sending.{
  Wait, send_transfer, send_with_retry, Retried, opens, polls, stall,
}
use beaglewing.Clipboard.Sending.Delivers.{IsDelivery, send_with_retry-IsDelivery}
use beaglewing.Clipboard.Sending.Whole.{IsClocked, IsTransfer, send_transfer-IsTransfer}
use beaglewing.Clipframe.Frame.{frame_bytes}
use beaglewing.Clipframe.Reassembler.RoundTrip.{progress_from}
use beaglewing.Common.Bytes.{Bytes}
use beaglewing.Tests.Transfers.{hello, busy}
use beaglewing.Common.{
  ltb, length, replicate, ℕ, ◌*◌, ◌≤◌, ◌≡◌, Bool, false, none, some, List, [], ◌∷◌, arith,
}

-- The receiver counts all frames at once, or none of them.
abbrev pub prompt : ℕ → Wait
prompt i = record { loads = λ k. i; elapsed = λ k. 2 * k }

abbrev pub silent : ℕ → Wait
silent i = record { loads = λ k. 0; elapsed = λ k. 3 * k }

pub prompt-IsClocked : (i : ℕ) → IsClocked (prompt i)
prompt-IsClocked i = record { sleeps = λ k. omega arith }

pub silent-IsClocked : (i : ℕ) → IsClocked (silent i)
silent-IsClocked i = record { sleeps = λ k. omega arith }

-- The relay breaks at the ninth frame.
abbrev pub relay : List Bytes → Bytes → Bool
relay earlier f = ltb (length earlier) 8

abbrev frames : List Bytes
frames = frame_bytes 1 0 hello ∷ frame_bytes 2 0 hello ∷ frame_bytes 3 0 hello ∷ []

send_transfer-IsTransfer_example :
    IsTransfer relay prompt (hello ∷ []) frames 2 (send_transfer relay prompt (hello ∷ []) frames)
send_transfer-IsTransfer_example =
    send_transfer-IsTransfer relay prompt prompt-IsClocked (hello ∷ []) frames (omega arith)

send_with_retry-IsDelivery_example :
    (out : Retried × List Bytes) × (send_with_retry relay silent prompt (hello ∷ []) 1 hello
      ≡ some out)
    × IsDelivery relay silent prompt (hello ∷ []) 1 hello busy out
send_with_retry-IsDelivery_example =
    send_with_retry-IsDelivery relay silent prompt (hello ∷ []) 1 hello busy silent-IsClocked
      prompt-IsClocked (omega arith)

abbrev quiet : Outside
quiet = record {
  now = 100;
  sets = false;
  batch_signature = λ paths. none;
  pack = λ paths. none;
  unpack_to_stage = λ tar. none;
  waits = prompt;
  again = silent;
}

abbrev many : List Bytes
many = replicate 130 hello

on_results-opens_example :
    (b : Agent) × (acks : List Bytes) × (on_results relay
        (λ t. t)
        (λ t. t)
        quiet
        (progress_from 0 many)
        (begun relay (λ t. t) (λ t. t) 5)
      ≡ some b)
    × (b.written ≡ acks)
    × (counted 0 acks ≤ 130)
    × (stall polls (record { loads = λ k. counted 0 acks; elapsed = λ k. 3 * k }) 0 130 ≡ opens)
unfolding replicate
on_results-opens_example =
    on_results-opens relay (λ t. t) (λ t. t) quiet many (begun relay (λ t. t) (λ t. t) 5)
      (λ k. 3 * k) (omega arith)
