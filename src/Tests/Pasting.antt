-- ===== src/Tests/Pasting.antt =====
-- Runs of windows/clipboard-agent/src/main.rs, and its theorems at concrete data.
use beaglewing.Clipboard.Agent.{LocalOffer}
use beaglewing.Clipboard.Sending.{Retried, gone, first, send_transfer}
use beaglewing.Clipboard.Sending.Delivers.{IsDelivery}
use beaglewing.Clipboard.Text.{content_hash, unix_lines}
use beaglewing.Clipframe.Defs.{kind_text, kind_tar, max_payload}
use beaglewing.Clipframe.Encode.{encode_transfer}
use beaglewing.Clipframe.Frame.{Offer, frame_bytes}
use beaglewing.Clipframe.Reassembler.{offer, feed}
use beaglewing.Clipframe.Signature.{fnv1a, mix}
use beaglewing.Common.Bytes.{Bytes}
use beaglewing.Helper.Apply.{Applying, Applied}
use beaglewing.Helper.Content.{WinClipboard}
use beaglewing.Helper.Defs.{Helper, started, apply_next, halfway}
use beaglewing.Helper.Loop.Halfway.{IsOffered, send_round-apply_files}
use beaglewing.Helper.Device.{Device, ensure_open, send_frames}
use beaglewing.Helper.Device.Delivers.{send_frames-IsDelivery}
use beaglewing.Helper.Device.Wire.{on_wire, send_frames-eq_first}
use beaglewing.Helper.Hdrop.{build_hdrop, read_hdrop, read_hdrop-build_hdrop}
use beaglewing.Helper.Lines.{windows_lines, unix_lines-windows_lines}
use beaglewing.Helper.Loop.{Round, send_round}
use beaglewing.Helper.Loop.Echo.{Quiet, send_round-echo_text}
use beaglewing.Helper.Loop.Offers.{after_offer, send_round-offer}
use beaglewing.Helper.Loop.Sends.{send_round-text}
use beaglewing.Helper.Loop.Serves.{IsServed, send_round-pull, send_round-other_pull}
use beaglewing.Helper.Reader.{on_frames}
use beaglewing.Helper.Reader.Acks.{acks_from}
use beaglewing.Helper.Reader.Transfer.{wrote, on_frames-transfer}
use beaglewing.Tests.Flow.{prompt, prompt-IsClocked, relay, silent, silent-IsClocked}
use beaglewing.Tests.Transfers.{hello, busy}
use beaglewing.Common.{
  length, chunks, ℕ, bit_xor, ◌≡◌, ◌≢◌, ◌⊎◌, refl, Bool, true, false, none, some, List, [], ◌∷◌,
  arith,
}

abbrev plain : Bytes → Bytes
plain text = text

-- A device that takes every frame.
abbrev pub sturdy : List Bytes → Bytes → Bool
sturdy written f = true

abbrev device : Device
device = record { opened = true; written = hello ∷ [] }

abbrev frames : List Bytes
frames = frame_bytes 1 0 hello ∷ frame_bytes 2 0 hello ∷ frame_bytes 3 0 hello ∷ []

send_frames-IsDelivery_example :
    (fs : List Bytes) × (encode_transfer 1 hello ≡ some fs)
    × IsDelivery relay silent prompt
        (hello ∷ [])
        1
        hello
        busy
        (on_wire (send_frames relay silent prompt fs device))
    × (((send_frames relay silent prompt fs device).0 ≢ gone)
        ⊎ ((send_frames relay silent prompt fs device).1.opened ≡ false))
send_frames-IsDelivery_example =
    send_frames-IsDelivery relay silent prompt silent-IsClocked prompt-IsClocked (hello ∷ []) 1
      hello busy device (omega arith) refl refl

send_frames-eq_first_example :
    on_wire (send_frames sturdy silent prompt frames device)
    ≡ first sturdy prompt frames (send_transfer sturdy silent (hello ∷ []) frames)
send_frames-eq_first_example =
    send_frames-eq_first sturdy silent prompt frames device refl (λ w. refl)

read_hdrop-build_hdrop_example :
    read_hdrop (build_hdrop ((67 ∷ 58 ∷ 92 ∷ 8364 ∷ []) ∷ (97 ∷ []) ∷ []))
    ≡ some ((67 ∷ 58 ∷ 92 ∷ 8364 ∷ []) ∷ (97 ∷ []) ∷ [])
read_hdrop-build_hdrop_example =
    read_hdrop-build_hdrop ((67 ∷ 58 ∷ 92 ∷ 8364 ∷ []) ∷ (97 ∷ []) ∷ []) (omega arith)

unix_lines-windows_lines_run :
    (unix_lines (windows_lines (97 ∷ 13 ∷ 10 ∷ 13 ∷ 13 ∷ 10 ∷ []))
      ≡ unix_lines (97 ∷ 13 ∷ 10 ∷ 13 ∷ 13 ∷ 10 ∷ []))
    × (windows_lines (windows_lines (97 ∷ 13 ∷ 10 ∷ 13 ∷ 13 ∷ 10 ∷ []))
        ≡ windows_lines (97 ∷ 13 ∷ 10 ∷ 13 ∷ 13 ∷ 10 ∷ []))
unix_lines-windows_lines_run = unix_lines-windows_lines (97 ∷ 13 ∷ 10 ∷ 13 ∷ 13 ∷ 10 ∷ [])

windows_text : windows_lines (97 ∷ 10 ∷ 98 ∷ 13 ∷ 10 ∷ []) ≡ 97 ∷ 13 ∷ 10 ∷ 98 ∷ 13 ∷ 10 ∷ []
unfolding windows_lines unix_lines
windows_text = refl

abbrev nothing_on_it : WinClipboard
nothing_on_it = record {
  file_list = none;
  unicode = none;
  png = none;
  bitmap = none;
  bmp_to_png = λ bmp. none;
  batch_signature = λ paths. some (length paths, 5);
}

abbrev round : WinClipboard → ℕ → Round
round c n = record {
  found = false;
  pack = λ paths. some hello;
  seq = some n;
  clipboard = c;
  waits = prompt;
  again = prompt;
  new_waits = prompt;
  new_again = prompt;
}

abbrev batch : LocalOffer
batch = record { id = 77; paths = hello ∷ [] }

abbrev empty_clipboard : Applied
empty_clipboard = record { contents = []; last_set = 0 }

-- The helper with an offer, in the middle of receiving something.
abbrev pub helper : Helper
helper = record (started true true (some 4) (hello ∷ []) empty_clipboard) {
  reasm = busy;
  local_offer = some batch;
}

on_frames-transfer_example :
    (fs : List Bytes) × (encode_transfer 1 hello ≡ some fs)
    × (on_frames sturdy fs helper
        ≡ some (record helper {
          reasm = record { active = none; data_frames = length (chunks max_payload hello) };
          queue = (1, hello) ∷ [];
          dev = wrote sturdy (λ w f. refl) (acks_from 0 (chunks max_payload hello)) helper.dev;
        }))
unfolding started
on_frames-transfer_example =
    on_frames-transfer sturdy (λ w f. refl) helper 1 hello refl (omega arith)

-- What the helper sees after it put these on the clipboard, or after a copy there.
abbrev text_on_it : WinClipboard
text_on_it = record nothing_on_it { unicode = some hello }

abbrev files_on_it : WinClipboard
files_on_it = record nothing_on_it { file_list = some ((97 ∷ []) ∷ (98 ∷ []) ∷ []) }

send_round-pull_example :
    (t : Helper) × (send_round sturdy plain
        (round nothing_on_it 4)
        (record helper { pull_request = some 77 })
      ≡ some t)
    × IsServed sturdy plain (round nothing_on_it 4) (hello ∷ []) batch hello busy t
unfolding started
send_round-pull_example =
    send_round-pull sturdy plain (round nothing_on_it 4) (record helper { pull_request = some 77 })
      batch hello busy prompt-IsClocked prompt-IsClocked refl refl refl refl (omega arith) refl

send_round-other_pull_run :
    send_round sturdy plain (round nothing_on_it 4) (record helper { pull_request = some 78 })
    ≡ some (record helper { pull_request = none })
unfolding started ensure_open
send_round-other_pull_run =
    send_round-other_pull sturdy plain (round nothing_on_it 4)
      (record helper { pull_request = some 78 }) 78 refl (λ lo e. ground arith) refl

send_round-offer_run :
    (f : Bytes) × (what : Offer) × (feed busy f ≡ (busy, offer what))
    × (what.kind ≡ kind_tar)
    × (send_round sturdy plain (round files_on_it 5) helper
        ≡ some (
            after_offer sturdy plain
              (round files_on_it 5)
              f
              what.id
              ((97 ∷ []) ∷ (98 ∷ []) ∷ [])
              (bit_xor 2 kind_tar)
              (record helper { last_seq = 5 })))
unfolding started
send_round-offer_run =
    send_round-offer sturdy plain (round files_on_it 5) helper (97 ∷ []) ((98 ∷ []) ∷ []) 2 5 busy
      (omega arith) refl refl (λ e. absurd (omega (arith, e))) refl
      (
        ((((λ e. absurd (omega (arith, e))), (λ e. absurd (omega (arith, e)))), tt), omega arith),
        (
          ((((λ e. absurd (omega (arith, e))), (λ e. absurd (omega (arith, e)))), tt), omega arith),
          tt,
        ),
      )
      refl refl (λ e. absurd (omega (arith, e))) (λ e. absurd (omega (arith, e)))

abbrev applying : Applying
applying = record {
  opens = true;
  empties = true;
  registered = λ f. true;
  sets = λ f. true;
  png_to_bmp = λ png. none;
  unpack_to_stage = λ tar. some ((97 ∷ []) ∷ (98 ∷ []) ∷ []);
  utf16 = λ p. p;
  batch_signature = λ paths. some (length paths, 5);
}

abbrev handed : ℕ → Helper
handed kind = record helper { queue = (kind, hello) ∷ [] }

send_round-echo_text_example :
    Quiet sturdy plain (round text_on_it 9) (apply_next applying plain (handed kind_text))
unfolding started windows_lines unix_lines
send_round-echo_text_example =
    send_round-echo_text sturdy plain (round text_on_it 9) applying (handed kind_text) refl [] hello
      104 (105 ∷ []) refl refl refl refl refl

send_round-apply_files_example :
    Quiet sturdy plain (round files_on_it 9) (apply_next applying plain (handed kind_tar))
    × IsOffered sturdy plain
        (round files_on_it 9)
        busy
        ((97 ∷ []) ∷ (98 ∷ []) ∷ [])
        (bit_xor 2 kind_tar)
        (halfway applying ((97 ∷ []) ∷ (98 ∷ []) ∷ []) [] (handed kind_tar))
unfolding started
send_round-apply_files_example =
    send_round-apply_files sturdy plain (round files_on_it 9) applying (handed kind_tar) refl []
      hello (97 ∷ []) ((98 ∷ []) ∷ []) 2 5 busy refl refl refl refl refl refl refl refl refl refl
      (omega arith) refl (λ e. absurd (omega (arith, e)))
      (
        ((((λ e. absurd (omega (arith, e))), (λ e. absurd (omega (arith, e)))), tt), omega arith),
        (
          ((((λ e. absurd (omega (arith, e))), (λ e. absurd (omega (arith, e)))), tt), omega arith),
          tt,
        ),
      )
      refl (λ e. absurd (omega (arith, e))) (λ e. absurd (omega (arith, e)))

hashed : content_hash kind_text hello ≡ 628919584683901915
unfolding content_hash fnv1a mix
hashed = refl

send_round-text_example :
    (x : Retried) × (d : Device) × (send_round sturdy plain (round text_on_it 9) helper
      ≡ some (record helper {
        dev = d;
        local_offer = none;
        last_seq = 9;
        last_sent = content_hash kind_text hello;
      }))
    × IsDelivery sturdy
        (round text_on_it 9).new_waits
        (round text_on_it 9).new_again
        (hello ∷ [])
        kind_text
        hello
        busy
        (x, d.written)
unfolding started
send_round-text_example =
    send_round-text sturdy plain (round text_on_it 9) helper 104 (105 ∷ []) busy prompt-IsClocked
      prompt-IsClocked refl refl (λ e. absurd (omega (arith, e))) refl refl
      (λ e. absurd (omega (arith, e, hashed))) (λ e. absurd (omega (arith, e, hashed)))
      (omega arith)
