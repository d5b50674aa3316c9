-- ===== src/Helper/Defs.antt =====
-- windows/clipboard-agent/src/main.rs: the state that the threads of `main` share or keep.
use beaglewing.Clipboard.Agent.{LocalOffer}
use beaglewing.Clipframe.Reassembler.{Reassembler, fresh}
use beaglewing.Common.Bytes.{Bytes}
use beaglewing.Helper.Apply.{Applied, Applying, apply, put_files}
use beaglewing.Helper.Device.{Device}
use beaglewing.Common.{ℕ, Bool, Option, none, some, List, [], ◌∷◌}

-- `reading` says whether the device for reading is open. `queue` is the channel to the applier,
-- oldest first, and `applied` the clipboard with `last_set`.
pub record Helper : Type 0 where
  pub reading : Bool
  pub dev : Device
  pub acked : ℕ
  pub pull_request : Option ℕ
  pub reasm : Reassembler
  pub queue : List (ℕ × Bytes)
  pub applied : Applied
  pub last_sent : ℕ
  pub last_seq : ℕ
  pub local_offer : Option LocalOffer

-- The state of `main` when its threads start: whether the two devices were found, and the sequence
-- number of the clipboard, 0 if there is none.
unfoldable pub started : Bool → Bool → Option ℕ → List Bytes → Applied → Helper
started found_read found_write seq written applied = record {
  reading = found_read;
  dev = record { opened = found_write; written = written };
  acked = 0;
  pull_request = none;
  reasm = fresh;
  queue = [];
  applied = record applied { last_set = 0 };
  last_sent = 0;
  last_seq = elim seq [ none ↦ 0 | some n ↦ n ];
  local_offer = none;
}

-- The applier takes what the reader handed over, one transfer after the other.
unfoldable pub apply_front : Applying → (Bytes → Bytes) → List (ℕ × Bytes) → Helper → Helper
apply_front w lossy [] s = s
apply_front w lossy (x ∷ rest) s = record s { queue = rest; applied = apply w lossy x s.applied }

unfoldable pub apply_next : Applying → (Bytes → Bytes) → Helper → Helper
unfolding apply_front
apply_next w lossy s = apply_front w lossy s.queue s

-- The applier is between its two steps for staged files: they are on the clipboard, and `last_set`
-- is still the old one.
abbrev pub halfway : Applying → List Bytes → List (ℕ × Bytes) → Helper → Helper
halfway w staged rest s = record s { queue = rest; applied = (put_files w staged s.applied).0 }
