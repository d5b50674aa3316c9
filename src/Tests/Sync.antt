-- ===== src/Tests/Sync.antt =====
-- Runs of linux/input-router/src/clipboard.rs, and the theorems about it at concrete data.
use beaglewing.Clipboard.Agent.{
  write, LocalOffer, Agent, Outside, to_remote, to_local, changed, arrived, asked, stays, leaves,
}
use beaglewing.Clipboard.Session.Echo.{on_event-echo_files, on_event-echo_text}
use beaglewing.Clipboard.Session.Offers.{on_event-offer, on_event-crossing_twice}
use beaglewing.Clipboard.Session.Push.{IsPushed, on_event-crossing, on_event-pull}
use beaglewing.Clipboard.Session.{begun, on_event, request, on_asked}
use beaglewing.Clipboard.Text.{
  content_hash, unix_lines, copied_files, parse_file_list, path_to_uri, uri_to_path,
}
use beaglewing.Clipboard.Watcher.{Desktop, read_local_clipboard, watch}
use beaglewing.Clipboard.Watcher.Own.{watch-copied_files}
use beaglewing.Clipboard.Text.Lists.{IsLossless, parse_file_list-copied_files}
use beaglewing.Clipboard.Text.Uris.{IsTrim, uri_to_path-path_to_uri}
use beaglewing.Clipframe.Defs.{kind_text, kind_tar}
use beaglewing.Clipframe.Frame.{
  parse, frame, u32_payload, Offer, frame_bytes, offer_frame, pull_frame,
}
use beaglewing.Clipframe.Reassembler.{Reassembler, complete, feed_parsed, feed, offer, pull}
use beaglewing.Clipframe.Reassembler.Requests.{feed-offer_frame, feed-pull_frame}
use beaglewing.Common.Bytes.{u32_to_le, u16_from_le, u32_from_le, Bytes}
use beaglewing.Tests.Flow.{prompt, prompt-IsClocked, relay}
use beaglewing.Tests.Transfers.{hello, busy, fed, short_end, received}
use beaglewing.Common.{
  ◌==◌, if◌then◌else◌, length, bit_xor, ◌≡◌, refl, true, false, none, some, [], ◌∷◌, arith,
}

abbrev plain : Bytes → Bytes
plain text = text

plain-IsTrim : IsTrim plain
plain-IsTrim = record { trim-printable = λ text h. refl }

plain-IsLossless : IsLossless plain
plain-IsLossless = record { lossy-ascii = λ text h. refl }

-- "/a b"
abbrev path : Bytes
path = 47 ∷ 97 ∷ 32 ∷ 98 ∷ []

uri_to_path-path_to_uri_run : uri_to_path plain plain (path_to_uri path) ≡ some path
uri_to_path-path_to_uri_run =
    uri_to_path-path_to_uri plain plain path plain-IsTrim (omega arith) refl

parse_file_list-copied_files_example :
    parse_file_list plain plain (copied_files (path ∷ path ∷ [])) ≡ path ∷ path ∷ []
parse_file_list-copied_files_example =
    parse_file_list-copied_files plain plain plain-IsTrim plain-IsLossless (path ∷ path ∷ [])
      ((omega arith, refl), ((omega arith, refl), tt))

abbrev what : Offer
what = record { kind = 3; total = 70000; items = 300; id = 123456 }

feed-offer_frame_run :
    (f : Bytes) × (offer_frame what ≡ some f) × (feed busy f ≡ (busy, offer what))
feed-offer_frame_run = feed-offer_frame busy what (omega arith) (omega arith) (omega arith)

feed-pull_frame_run :
    (f : Bytes) × (pull_frame 123456 ≡ some f) × (feed busy f ≡ (busy, pull 123456))
feed-pull_frame_run = feed-pull_frame busy 123456 (omega arith)

abbrev outside : Outside
outside = record {
  now = 100;
  sets = true;
  batch_signature = λ paths. some (length paths, 5);
  pack = λ paths. some hello;
  unpack_to_stage = λ tar. some (path ∷ []);
  waits = prompt;
  again = prompt;
}

abbrev batch : LocalOffer
batch = record { id = 77; paths = path ∷ [] }

-- The agent in the middle of receiving a text, with an offer on each side.
abbrev agent : Agent
agent = record (begun relay plain plain 50) {
  reasm = fed;
  local_offer = some batch;
  remote_offer = some (record { what = what; requested = false });
}

on_event-echo_text_run :
    (b : Agent) × (on_event relay plain plain outside (arrived short_end) agent ≡ stays b)
    × (b.written ≡ [])
    × (b.clipboard ≡ (kind_text, unix_lines hello) ∷ [])
    × (on_event relay plain plain outside
          (changed kind_text (unix_lines hello) (content_hash kind_text (unix_lines hello)))
          b
        ≡ stays b)
on_event-echo_text_run =
    on_event-echo_text relay plain plain agent short_end hello outside outside received refl

on_event-crossing_example :
    IsPushed relay plain plain outside [] batch hello busy
      (on_event relay plain plain outside (asked to_remote) agent)
on_event-crossing_example =
    on_event-crossing relay plain plain outside agent batch hello busy prompt-IsClocked
      prompt-IsClocked refl refl (omega arith)

on_event-pull_example :
    (f : Bytes) × (pull_frame 77 ≡ some f)
    × IsPushed relay plain plain outside [] batch hello busy
        (on_event relay plain plain outside (arrived f) agent)
on_event-pull_example =
    on_event-pull relay plain plain outside agent batch hello busy prompt-IsClocked prompt-IsClocked
      refl refl (omega arith) (omega arith)

on_event-offer_example :
    (f : Bytes) × (o : Offer) × (feed busy f ≡ (busy, offer o))
    × (o.kind ≡ kind_tar)
    × (on_event relay plain plain outside (changed kind_tar hello 9) agent ≡ (
        if relay [] f
        then stays (record agent {
          local_offer = some (record { id = o.id; paths = parse_file_list plain plain hello });
          last_sent = 9;
          written = f ∷ [];
        })
        else leaves (record agent { written = f ∷ [] })))
on_event-offer_example =
    on_event-offer relay plain plain outside agent hello 9 _ 5 busy (omega arith) (omega arith)
      (omega arith) refl

abbrev asked_agent : Agent
asked_agent = record agent {
  remote_offer = some (record { what = what; requested = true });
  written = frame_bytes 0x21 0 (u32_to_le 123456) ∷ [];
}

asked_once : on_event relay plain plain outside (asked to_local) agent ≡ stays asked_agent
unfolding on_event on_asked request write pull_frame frame
asked_once = refl

on_event-crossing_twice_run :
    on_event relay plain plain outside (asked to_local) asked_agent ≡ stays asked_agent
on_event-crossing_twice_run =
    on_event-crossing_twice relay plain plain outside agent asked_agent asked_once

-- An archive that is about to be complete.
abbrev fed_files : Reassembler
fed_files = record {
  active = some (record { kind = 3; total = 2; last_seq = 1; content = hello });
  data_frames = 1;
}

files_received : (feed fed_files short_end).1 ≡ complete kind_tar hello
unfolding feed parse feed_parsed u16_from_le u32_from_le u32_payload
files_received = refl

on_event-echo_files_example :
    (b : Agent) × (on_event relay plain plain outside
        (arrived short_end)
        (record agent { reasm = fed_files })
      ≡ stays b)
    × (b.written ≡ [])
    × (b.remote_offer ≡ none)
    × (b.clipboard ≡ (kind_tar, copied_files (path ∷ [])) ∷ [])
    × (outside.batch_signature (parse_file_list plain plain (copied_files (path ∷ [])))
        ≡ some (1, 5))
    × (on_event relay plain plain outside
          (changed kind_tar (copied_files (path ∷ [])) (bit_xor 1 kind_tar))
          b
        ≡ stays b)
on_event-echo_files_example =
    on_event-echo_files relay plain plain (record agent { reasm = fed_files }) short_end hello
      outside outside (path ∷ []) 1 5 plain-IsTrim plain-IsLossless ((omega arith, refl), tt)
      files_received refl refl refl

abbrev desktop : Desktop
desktop = record {
  targets = some (λ t. true);
  xclip_out = λ t. some (copied_files (path ∷ []));
  batch_signature = λ paths. some (length paths, 5);
}

watch-copied_files_run : watch 4 (read_local_clipboard plain plain desktop) ≡ (
    if bit_xor 1 kind_tar == 4 then (4, none) else (
      bit_xor 1 kind_tar,
      some (changed kind_tar (copied_files (path ∷ [])) (bit_xor 1 kind_tar)),
    ))
watch-copied_files_run =
    watch-copied_files plain plain desktop (λ t. true) path [] 1 5 plain-IsTrim plain-IsLossless
      ((omega arith, refl), tt) refl refl refl refl 4
