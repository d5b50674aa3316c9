-- ===== src/Relay/Write.antt =====
-- pi/bridge/src/bin/beaglewing-data.rs: `write_frame`. Times are in milliseconds; the log is left
-- out.
pub mod Bounded
use beaglewing.Common.{ltb, if◌then◌else◌, ℕ, zero, suc}

-- What `write` on the device returns: `Ok`, `WouldBlock` or another error.
pub data Wrote : Type 0 where
  taken blocks fails : Wrote

-- The k-th write of the frame, and the time since the first when it returns.
pub record Writing : Type 0 where
  pub result : ℕ → Wrote
  pub elapsed : ℕ → ℕ

-- The frame is forwarded, dropped after the wait, or lost to an error. `spins` is no outcome of the
-- source: the loop ran out of fuel.
pub data Outcome : Type 0 where
  forwarded dropped lost spins : Outcome

unfoldable pub on_wrote : Wrote → ℕ → Outcome → Outcome
on_wrote taken elapsed later = forwarded
on_wrote fails elapsed later = lost
on_wrote blocks elapsed later = if ltb 10000 elapsed then dropped else later

unfoldable pub write_from : ℕ → Writing → ℕ → Outcome
unfolding on_wrote
write_from zero w k = spins
write_from (suc fuel) w k =
    let later = write_from fuel w (suc k) in on_wrote (w.result k) (w.elapsed k) later

-- The loop waits up to 200 milliseconds a round and gives up after ten seconds.
abbrev pub rounds : ℕ
rounds = 52

unfoldable pub write_frame : Writing → Outcome
unfolding write_from
write_frame w = write_from rounds w 0
