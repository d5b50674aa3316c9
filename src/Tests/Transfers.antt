-- ===== src/Tests/Transfers.antt =====
-- Runs of protocol/clipframe/src/lib.rs, and its theorems at concrete data.
use beaglewing.Clipframe.Defs.{frame_len, max_payload, t_data}
use beaglewing.Clipframe.Encode.{encode_transfer}
use beaglewing.Clipframe.Encode.Frames.{transfer_frames, encode_transfer-eq}
use beaglewing.Clipframe.Frame.{u32_payload, frame, parse, ack_frame, parse_ack}
use beaglewing.Clipframe.Frame.Layout.{parse-frame, parse_ack-ack_frame}
use beaglewing.Clipframe.Reassembler.{
  nothing, complete, error, sequence_gap, Reassembler, fresh, feed, feed_all, feed_parsed,
}
use beaglewing.Clipframe.Reassembler.RoundTrip.{progress_from, feed_all-encode_transfer}
use beaglewing.Clipframe.Reassembler.Sound.{begin, next, IsDelivered, feed-complete-IsDelivered}
use beaglewing.Clipframe.Reassembler.Transition.{Change, feed_parsed-Change}
use beaglewing.Common.Bytes.{u32_from_le, u16_from_le, Bytes}
use beaglewing.Common.{length, chunks, ◌≡◌, refl, none, some, List, [], ◌∷◌, ◌++◌, arith}

abbrev pub hello : Bytes
hello = 104 ∷ 105 ∷ []

-- a receiver in the middle of another transfer
abbrev pub busy : Reassembler
busy = record {
  active = some (record { kind = 2; total = 9; last_seq = 3; content = 1 ∷ [] });
  data_frames = 3;
}

parse-frame_run :
    (f : Bytes) × (frame t_data 7 hello ≡ some f)
    × (length f ≡ frame_len)
    × (parse f ≡ some (record { t = t_data; seq = 7; payload = hello }))
parse-frame_run = parse-frame t_data 7 hello (omega arith) (omega arith)

parse_ack-ack_frame_run : (f : Bytes) × (ack_frame 300 ≡ some f) × (parse_ack f ≡ some 300)
parse_ack-ack_frame_run = parse_ack-ack_frame 300 (omega arith)

encode_transfer-eq_run : encode_transfer 1 hello ≡ some (transfer_frames 1 hello)
encode_transfer-eq_run = encode_transfer-eq 1 hello

feed_all-encode_transfer_example :
    (frames : List Bytes) × (encode_transfer 1 hello ≡ some frames)
    × (feed_all busy frames ≡ (
      record { active = none; data_frames = length (chunks max_payload hello) },
      nothing ∷ (progress_from 0 (chunks max_payload hello) ++ (complete 1 hello ∷ [])),
    ))
feed_all-encode_transfer_example = feed_all-encode_transfer busy 1 hello (omega arith)

feed_parsed-Change_run : Change busy t_data 4 hello (feed_parsed busy t_data 4 hello)
feed_parsed-Change_run = feed_parsed-Change busy t_data 4 hello

-- A frame that does not follow on the last one ends the transfer.
gap :
    feed_parsed busy t_data 5 hello
    ≡ (record { active = none; data_frames = 3 }, error sequence_gap)
unfolding feed_parsed
gap = refl

-- Frames as short as the parser takes them.
abbrev short_start : Bytes
short_start = 0x10 ∷ 0 ∷ 0 ∷ 0 ∷ 5 ∷ 0 ∷ 1 ∷ 2 ∷ 0 ∷ 0 ∷ 0 ∷ []

abbrev short_data : Bytes
short_data = 0x11 ∷ 0 ∷ 1 ∷ 0 ∷ 2 ∷ 0 ∷ hello

abbrev pub short_end : Bytes
short_end = 0x12 ∷ 0 ∷ 2 ∷ 0 ∷ 4 ∷ 0 ∷ 2 ∷ 0 ∷ 0 ∷ 0 ∷ []

abbrev pub fed : Reassembler
fed = (feed (feed fresh short_start).0 short_data).0

pub received : (feed fed short_end).1 ≡ complete 1 hello
unfolding feed parse feed_parsed u16_from_le u32_from_le u32_payload
received = refl

feed-complete-IsDelivered_example : IsDelivered (short_start ∷ short_data ∷ []) short_end 1 hello
feed-complete-IsDelivered_example =
    feed-complete-IsDelivered short_end 1 hello (next short_data (next short_start begin)) received
