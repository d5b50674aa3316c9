-- ===== src/Helper/Loop.antt =====
-- windows/clipboard-agent/src/main.rs: the loop that sends.
-- `Round` is what the outside answers in a round. The log is left out.
pub mod Serves
pub mod Offers
pub mod Sends
pub mod Echo
pub mod Halfway
use beaglewing.Clipboard.Agent.{LocalOffer}
use beaglewing.Clipboard.Sending.{Wait, Retried, sent}
use beaglewing.Clipboard.Text.{offer_id, lines}
use beaglewing.Clipboard.Watcher.{Found}
use beaglewing.Clipframe.Defs.{kind_tar}
use beaglewing.Clipframe.Encode.{encode_transfer}
use beaglewing.Clipframe.Frame.{Offer, offer_frame}
use beaglewing.Common.Bytes.{Bytes}
use beaglewing.Helper.Content.{WinClipboard, get_clipboard_content}
use beaglewing.Helper.Defs.{Helper}
use beaglewing.Helper.Device.{Device, ensure_open, hid_send, send_frames}
use beaglewing.Common.{
  ◌==◌, if◌then◌else◌, ◌>>=◌, length, ℕ, ◌-◌, ◌^◌, min, Bool, true, false, ◌||◌, Option, none, some,
  List,
}

-- Whether a device is found, the archive of a batch, the sequence number of the clipboard and what
-- is on it, the signature of the batch on it, and the waits of the two attempts to serve a pull and
-- of those to send new content.
pub record Round : Type 0 where
  pub found : Bool
  pub pack : List Bytes → Option Bytes
  pub seq : Option ℕ
  pub clipboard : WinClipboard
  pub waits : ℕ → Wait
  pub again : ℕ → Wait
  pub new_waits : ℕ → Wait
  pub new_again : ℕ → Wait

module _ (takes : List Bytes → Bytes → Bool) (lossy : Bytes → Bytes) (w : Round) where
  -- `encode_transfer` and `send_frames`; `none` is the panic of the assertion in `frame`.
  unfoldable pub send_content :
      (ℕ → Wait) → (ℕ → Wait) → ℕ → Bytes → Device → Option (Retried × Device)
  send_content waits again kind content d = do
    frames ← encode_transfer kind content
    some (send_frames takes waits again frames d)

  -- The offer is given up once its files are sent.
  served : Helper → Retried × Device → Helper
  served s (sent, d) = record s { dev = d; local_offer = none }
  served s (x, d) = record s { dev = d }

  serve : Option Bytes → Helper → Option Helper
  unfolding send_content served
  serve none s = some s
  serve (some tar) s = do out ← send_content w.waits w.again kind_tar tar s.dev; some (served s out)

  serve_offer : ℕ → Option LocalOffer → Helper → Option Helper
  unfolding serve
  serve_offer id none s = some s
  serve_offer id (some lo) s = if lo.id == id then serve (w.pack lo.paths) s else some s

  -- The pull that the reader left, if there is one.
  unfoldable pub on_pull : Option ℕ → Helper → Option Helper
  unfolding serve_offer
  on_pull none s = some s
  on_pull (some id) s = serve_offer id s.local_offer (record s { pull_request = none })

  abbrev offer_of : ℕ → List Bytes → ℕ → Offer
  offer_of total paths hash = record {
    kind = kind_tar;
    total = min total (2 ^ 32 - 1);
    items = min (length paths) (2 ^ 16 - 1);
    id = offer_id hash;
  }

  abbrev offered : ℕ → List Bytes → ℕ → Helper → Device × Bool → Helper
  offered total paths hash s (d, true) = record s {
    dev = d;
    local_offer = some (record { id = offer_id hash; paths = paths });
    last_sent = hash;
  }
  offered total paths hash s (d, false) = record s { dev = d }

  offer_batch : Option (ℕ × ℕ) → List Bytes → ℕ → Helper → Option Helper
  offer_batch none paths hash s = some s
  offer_batch (some (sig, total)) paths hash s = do
    f ← offer_frame (offer_of total paths hash)
    some (offered total paths hash s (hid_send takes f s.dev))

  -- The hash is kept whether or not the content was sent.
  unfoldable pub send_new : Found → Helper → Option Helper
  unfolding send_content
  send_new x s = do
    (result, d) ← send_content w.new_waits w.new_again x.kind x.content s.dev
    some (record s { dev = d; local_offer = none; last_sent = x.hash })

  unfoldable pub on_content : Option Found → Helper → Option Helper
  unfolding offer_batch send_new
  on_content none s = some s
  on_content (some x) s =
      if x.hash == s.last_sent || x.hash == s.applied.last_set
      then some s
      else if x.kind == kind_tar
      then (let paths = lines (lossy x.content) in
          offer_batch (w.clipboard.batch_signature paths) paths x.hash s)
      else send_new x s

  abbrev number : Option ℕ → ℕ
  number none = 0
  number (some n) = n

  unfoldable pub on_clipboard : Helper → Option Helper
  unfolding on_content
  on_clipboard s =
      let seq = number w.seq in
      if seq == s.last_seq
      then some s
      else on_content (get_clipboard_content w.clipboard) (record s { last_seq = seq })

  -- One round of the loop.
  unfoldable pub send_round : Helper → Option Helper
  unfolding on_pull on_clipboard
  send_round s =
      let t = record s { dev = ensure_open w.found s.dev } in
      on_pull t.pull_request t >>= on_clipboard
