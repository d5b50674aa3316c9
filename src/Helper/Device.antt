-- ===== src/Helper/Device.antt =====
-- windows/clipboard-agent/src/main.rs: `hid_send`, `ensure_open` and `send_frames`.
-- The device for writing is the list of the frames written to it, oldest first; `takes` says whether
-- a write succeeds after these. The progress that is logged is left out.
pub mod Wire
pub mod Delivers
use beaglewing.Clipboard.Sending.{
  Wait, Window, opens, gives_up, spins, polls, stall, Sent, done, stalled, lost, stuck, abort_frame,
  Retried, sent, gone, abandoned, unfinished,
}
use beaglewing.Common.Bytes.{Bytes}
use beaglewing.Common.{
  ltb, if◌then◌else◌, length, ℕ, suc, ◌+◌, ◌-◌, ◌%◌, ◌^◌, Bool, true, false, ◌&&◌, ◌||◌, List, [],
  ◌∷◌, ◌++◌,
}

-- `dev`: whether a device is open, and what was written to it.
pub record Device : Type 0 where
  pub opened : Bool
  pub written : List Bytes

-- A device that is found is opened if there is none.
unfoldable pub ensure_open : Bool → Device → Device
ensure_open found d = record d { opened = d.opened || found }

module _ (takes : List Bytes → Bytes → Bool) where
  send_on : Bool → Bytes → Device → Device × Bool
  send_on true f d =
      let ok = takes d.written f in (record { opened = ok; written = d.written ++ (f ∷ []) }, ok)
  send_on false f d = (d, false)

  -- The device is dropped when a write fails.
  unfoldable pub hid_send : Bytes → Device → Device × Bool
  unfolding send_on
  hid_send f d = send_on d.opened f d

  -- What follows on the wait before a DATA frame; `next` is the rest of the loop.
  unfoldable pub proceed : Window → Sent × Device → Device → Sent × Device
  unfolding hid_send
  proceed opens next d = next
  proceed gives_up next d = (stalled, (hid_send abort_frame d).0)
  proceed spins next d = (stuck, d)

  module _ (waits : ℕ → Wait) (last : ℕ) where
    -- The loop over the frames from number `i` on.
    unfoldable pub send_from : ℕ → ℕ → Device → List Bytes → Sent × Device
    unfolding proceed
    send_from i sent_data d [] = (done, d)
    send_from i sent_data d (f ∷ fs) =
        let write : ℕ → Sent × Device = (λ n.
          let (after, ok) = hid_send f d in
          let rest = send_from (suc i) n after fs in if ok then rest else (lost, after)) in
        if ltb 0 i && ltb i last
        then proceed (stall polls (waits i) 0 sent_data) (write ((sent_data + 1) % 2 ^ 32)) d
        else write sent_data

  -- One attempt.
  unfoldable pub attempt : (ℕ → Wait) → Device → List Bytes → Sent × Device
  unfolding send_from
  attempt waits d frames = send_from waits (length frames - 1) 0 0 d frames

  unfoldable pub second : Sent × Device → Retried × Device
  second (done, d) = (sent, d)
  second (lost, d) = (gone, d)
  second (stalled, d) = (abandoned, d)
  second (stuck, d) = (unfinished, d)

  unfoldable pub first : (ℕ → Wait) → List Bytes → Sent × Device → Retried × Device
  unfolding second attempt
  first again frames (done, d) = (sent, d)
  first again frames (lost, d) = (gone, d)
  first again frames (stalled, d) = second (attempt again d frames)
  first again frames (stuck, d) = (unfinished, d)

  -- `sent` stands for the result true, and the others for false.
  unfoldable pub send_frames : (ℕ → Wait) → (ℕ → Wait) → List Bytes → Device → Retried × Device
  unfolding first attempt
  send_frames waits again frames d = first again frames (attempt waits d frames)
