-- ===== src/Helper/Reader.antt =====
-- windows/clipboard-agent/src/main.rs: the reader thread.
-- The log is left out.
pub mod Acks
pub mod Transfer
use beaglewing.Clipframe.Defs.{frame_len, t_pong, ack_every}
use beaglewing.Clipframe.Frame.{frame, ack_frame, parse_ack}
use beaglewing.Clipframe.Reassembler.{
  FeedResult, nothing, ping, progress, complete, offer, pull, error, feed,
}
use beaglewing.Common.Bytes.{Bytes}
use beaglewing.Helper.Defs.{Helper}
use beaglewing.Helper.Device.{hid_send}
use beaglewing.Common.{
  ◌==◌, if◌then◌else◌, ◌>>=◌, length, ℕ, ◌+◌, ◌%◌, Bool, false, ◌||◌, Option, none, some, List, [],
  ◌∷◌, ◌++◌,
}

-- What `read_timeout` returns: the bytes read, none of them on a timeout, or an error.
pub data Read : Type 0 where
  bytes : Bytes → Read
  failed : Read

module _ (takes : List Bytes → Bytes → Bool) where
  -- A frame is sent and the result ignored; `none` is the panic of the assertion in `frame`.
  unfoldable pub send_anyway : Option Bytes → Helper → Option Helper
  send_anyway none s = none
  send_anyway (some f) s = some (record s { dev = (hid_send takes f s.dev).0 })

  unfoldable pub on_result : FeedResult → Helper → Option Helper
  unfolding send_anyway
  on_result ping s = send_anyway (frame t_pong 0 []) s
  on_result (progress n) s = if n % ack_every == 0 then send_anyway (ack_frame n) s else some s
  on_result (complete kind content) s =
      some (record s { queue = s.queue ++ ((kind, content) ∷ []) })
  on_result (offer o) s = some s
  on_result (pull id) s = some (record s { pull_request = some id })
  on_result (error e) s = some s
  on_result nothing s = some s

  unfoldable pub on_ack : Option ℕ → Bytes → Helper → Option Helper
  unfolding on_result
  on_ack (some count) f s = some (record s { acked = count })
  on_ack none f s = let (r, x) = feed s.reasm f in on_result x (record s { reasm = r })

  unfoldable pub on_frame : Bytes → Helper → Option Helper
  unfolding on_ack
  on_frame f s = on_ack (parse_ack f) f s

  -- Nothing was read: the device is opened again if it is closed and one is found.
  unfoldable pub reopened : Bool → Helper → Helper
  reopened found s = record s { reading = s.reading || found }

  unfoldable pub on_bytes : Bool → Bytes → Helper → Option Helper
  unfolding on_frame reopened
  on_bytes found f s = if length f == frame_len then on_frame f s else some (reopened found s)

  on_open : Bool → Read → Helper → Option Helper
  unfolding on_bytes
  on_open found (bytes f) s = on_bytes found f s
  on_open found failed s = some (reopened found (record s { reading = false }))

  -- One round of the loop; `found` says whether a device is found when it is looked for.
  unfoldable pub read_round : Bool → Read → Helper → Option Helper
  unfolding on_open
  read_round found x s = if s.reading then on_open found x s else some (reopened found s)

  -- The loop over frames that were read one after the other from the open device.
  unfoldable pub on_frames : List Bytes → Helper → Option Helper
  on_frames [] s = some s
  on_frames (f ∷ fs) s = do s' ← on_frame f s; on_frames fs s'
