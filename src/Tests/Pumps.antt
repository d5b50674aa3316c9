-- ===== src/Tests/Pumps.antt =====
-- Runs of pi/bridge/src/bin/beaglewing-data.rs, and its theorems at concrete data.
use beaglewing.Clipframe.Encode.Frames.{transfer_frames, encode_transfer-eq}
use beaglewing.Common.Bytes.{Bytes}
use beaglewing.Helper.Defs.{Helper, started}
use beaglewing.Helper.Reader.{on_frames}
use beaglewing.Relay.Defs.{
  Naming, client_step, end_session, Relay, report, nothing, frame, closed, pong, Event, from_host,
  from_client, serve, accept,
}
use beaglewing.Relay.Ends.{IsLeft, serve-closed}
use beaglewing.Relay.Forwards.{IsWhole, IsServing, IsAfter, requests, replies, serve-IsAfter}
use beaglewing.Relay.Transfers.{client_frames, serve-transfer}
use beaglewing.Relay.Write.{Writing, taken, blocks, forwarded, dropped, write_frame}
use beaglewing.Relay.Write.Bounded.{IsPolled, IsBounded, write_frame-IsBounded}
use beaglewing.Tests.Pasting.{sturdy, helper}
use beaglewing.Tests.Transfers.{hello}
use beaglewing.Common.{
  replicate, All, length-replicate, ℕ, ◌*◌, ◌≡◌, refl, sym, ap, ◌∙◌, Bool, true, false, some, List,
  [], ◌∷◌, ◌++◌, arith,
}

-- The queue has room at once, or never.
abbrev drained : Writing
drained = record { result = λ k. taken; elapsed = λ k. 200 * k }

abbrev full : Writing
full = record { result = λ k. blocks; elapsed = λ k. 201 * k }

drained-forwarded : write_frame drained ≡ forwarded
unfolding write_frame
drained-forwarded = refl

full-dropped : write_frame full ≡ dropped
unfolding write_frame
full-dropped = refl

full-IsPolled : IsPolled full
full-IsPolled = record { waits = λ k. omega arith }

write_frame-IsBounded_example : IsBounded full 0 (write_frame full)
write_frame-IsBounded_example = write_frame-IsBounded full full-IsPolled

abbrev all_drained : List Bytes → Bytes → Writing
all_drained written f = drained

abbrev all_sent : List (ℕ × Bytes) → Bytes → Bool
all_sent written f = true

abbrev all-forwarded : (w : List Bytes) (f : Bytes) → write_frame (all_drained w f) ≡ forwarded
all-forwarded w f = drained-forwarded

abbrev connected_relay : Relay
connected_relay = record {
  current = some 7;
  buf = replicate 1024 0;
  to_host = hello ∷ [];
  to_client = [];
}

-- The client's name is known throughout, or not when its session ends.
abbrev known : Naming
known = record { at_start = true; at_end = true }

abbrev reset : Naming
reset = record { at_start = true; at_end = false }

connected_relay-IsServing :
    IsServing all_drained all_sent all-forwarded (λ w f. refl) 7 connected_relay
connected_relay-IsServing = record {
  connected = refl;
  buffered = length-replicate {0} {A = ℕ} 1024 0;
}

abbrev full_report : Bytes
full_report = replicate 1024 5

abbrev events : List Event
events =
    from_client (frame (1 ∷ []))
    ∷ from_host (report full_report)
    ∷ from_client (frame (33 ∷ []))
    ∷ from_host nothing
    ∷ []

serve-IsAfter_example :
    IsAfter all_drained all_sent all-forwarded
      (λ w f. refl)
      7
      connected_relay
      ((33 ∷ []) ∷ [])
      ((7, pong) ∷ (7, full_report) ∷ [])
      (serve all_drained all_sent known 7 events connected_relay)
unfolding requests replies
serve-IsAfter_example =
    serve-IsAfter all_drained all_sent all-forwarded (λ w f. refl) known 7 events connected_relay
      connected_relay-IsServing (tt, (length-replicate {0} {A = ℕ} 1024 5, (tt, (tt, tt))))

-- The client's connection breaks at its first frame, and the queue is full.
serve-closed_example :
    IsLeft
      (λ w f. full)
      (λ w f. true)
      7
      reset
      connected_relay
      (serve
        (λ w f. full)
        (λ w f. true)
        reset
        7
        (from_host (report hello) ∷ from_client (frame hello) ∷ from_client closed ∷ [])
        (accept (λ w f. full) (λ w f. true) 7 connected_relay))
      (report hello ∷ [])
serve-closed_example =
    serve-closed (λ w f. full) (λ w f. true) 7 reset connected_relay
      (from_host (report hello) ∷ from_client (frame hello) ∷ []) [] (report hello ∷ [])

-- After a reset the client is still taken for connected.
serve-reset :
    (serve
      (λ w f. full)
      (λ w f. true)
      reset
      7
      (from_client closed ∷ [])
      (accept (λ w f. full) (λ w f. true) 7 connected_relay)).current
    ≡ some 7
unfolding serve client_step end_session
serve-reset = refl

abbrev sending : List Bytes → List Event
sending [] = from_host nothing ∷ []
sending (f ∷ fs) = from_client (frame f) ∷ sending fs

sending-IsWhole : (fs : List Bytes) → All IsWhole (sending fs)
sending-IsWhole [] = (tt, tt)
sending-IsWhole (f ∷ fs) = (tt, sending-IsWhole fs)

client_frames-sending : (fs : List Bytes) → client_frames (sending fs) ≡ fs
unfolding client_frames
client_frames-sending [] = refl
client_frames-sending (f ∷ fs) = ap (λ z. f ∷ z) (client_frames-sending fs)

serve-transfer_example :
    (fs : List Bytes) × (t : Helper) × ((serve all_drained all_sent known 7
        (sending (transfer_frames 1 hello))
        connected_relay).to_host
      ≡ (hello ∷ []) ++ fs)
    × (on_frames sturdy fs helper ≡ some t)
    × (t.queue ≡ (1, hello) ∷ [])
unfolding started
serve-transfer_example =
    serve-transfer all_drained all_sent sturdy all-forwarded (λ w f. refl) (λ w f. refl) known 7
      (sending (transfer_frames 1 hello)) connected_relay helper 1 hello connected_relay-IsServing
      (sending-IsWhole (transfer_frames 1 hello)) refl (omega arith)
      (encode_transfer-eq 1 hello ∙ ap some (sym (client_frames-sending (transfer_frames 1 hello))))
