-- ===== src/Clipboard/Agent.antt =====
-- linux/input-router/src/clipboard.rs: the state of the agent, `handle_frame` and
-- `push_local_offer`.
-- The clipboard, the file system and the tar archives are outside: what they answer while an event
-- is handled is given with it. Notifications and the log are left out. Times are in milliseconds.
pub mod Acks
use beaglewing.Clipboard.Sending.{Wait, Retried, abandoned, send_with_retry}
use beaglewing.Clipboard.Text.{content_hash, unix_lines, copied_files}
use beaglewing.Clipframe.Defs.{t_pong, kind_text, kind_png, kind_tar, ack_every}
use beaglewing.Clipframe.Frame.{Offer, frame, ack_frame}
use beaglewing.Clipframe.Reassembler.{
  FeedResult, nothing, ping, progress, complete, offer, pull, error, Reassembler, feed,
}
use beaglewing.Common.Bytes.{Bytes}
use beaglewing.Common.{
  ◌==◌, if◌then◌else◌, ◌>>=◌, ℕ, ◌%◌, bit_xor, Bool, true, false, Option, none, some, List, [], ◌∷◌,
  ◌++◌,
}

pub record LocalOffer : Type 0 where
  pub id : ℕ
  pub paths : List Bytes

pub record RemoteOffer : Type 0 where
  pub what : Offer
  pub requested : Bool

-- The variables of `run`. `written` holds the frames written to the relay, and `clipboard` what the
-- agent put on the clipboard, both oldest first.
pub record Agent : Type 0 where
  pub last_sent : ℕ
  pub last_set : ℕ
  pub local_offer : Option LocalOffer
  pub remote_offer : Option RemoteOffer
  pub reasm : Reassembler
  pub last_rx : ℕ
  pub written : List Bytes
  pub clipboard : List (ℕ × Bytes)

-- The messages that the agent knows, and any other.
pub data Control : Type 0 where
  to_remote to_local to_pull to_other : Control

pub data Ev : Type 0 where
  changed : ℕ → Bytes → ℕ → Ev
  arrived : Bytes → Ev
  asked : Control → Ev
  tick disconnected : Ev

-- What the outside answers while an event is handled: the time, whether the clipboard takes new
-- content, the signature and the size of a batch, the
-- archive of a batch, the staged paths of an archive, and the waits of two attempts to send.
pub record Outside : Type 0 where
  pub now : ℕ
  pub sets : Bool
  pub batch_signature : List Bytes → Option (ℕ × ℕ)
  pub pack : List Bytes → Option Bytes
  pub unpack_to_stage : Bytes → Option (List Bytes)
  pub waits : ℕ → Wait
  pub again : ℕ → Wait

pub data Incoming : Type 0 where
  offered : Offer → Incoming
  pulled : ℕ → Incoming
  finished : ℕ → Incoming

-- The session goes on, or the agent reconnects. `fails` is the panic of an
-- assertion, or a wait that ran out of fuel.
pub data Step : Type 0 where
  stays leaves : Agent → Step
  fails : Step

module _ (takes : List Bytes → Bytes → Bool) (trim lossy : Bytes → Bytes) where
  -- A write of a frame; `none` is the panic of the assertion in `frame`. The flag is its success.
  unfoldable pub write : Option Bytes → Agent → Option (Agent × Bool)
  write none a = none
  write (some f) a = some (record a { written = a.written ++ (f ∷ []) }, takes a.written f)

  -- a write whose result is ignored
  abbrev pub write_anyway : Option Bytes → Agent → Option Agent
  write_anyway f a = do (a', ok) ← write f a; some a'

  -- `set_local_clipboard`, and the hash that is kept if it succeeds
  unfoldable pub put : Outside → ℕ → Bytes → Option ℕ → Agent → Agent × Option Incoming
  put w kind content hash a =
      if w.sets
      then (
        record a {
          clipboard = a.clipboard ++ ((kind, content) ∷ []);
          last_set = elim hash [ none ↦ a.last_set | some h ↦ h ];
        },
        some (finished kind),
      )
      else (a, none)

  unfoldable pub put_text : Outside → Bytes → Agent → Agent × Option Incoming
  unfolding put
  put_text w content a =
      let text = unix_lines (lossy content) in
      put w kind_text text (some (content_hash kind_text text)) a

  unfoldable pub put_staged : Outside → Option (List Bytes) → Agent → Agent × Option Incoming
  unfolding put
  put_staged w none a = (a, none)
  put_staged w (some staged) a =
      put w kind_tar (copied_files staged)
        (do (sig, total) ← w.batch_signature staged; some (bit_xor sig kind_tar)) a

  unfoldable pub on_complete : Outside → ℕ → Bytes → Agent → Agent × Option Incoming
  unfolding put_text put put_staged
  on_complete w kind content a =
      if kind == kind_text
      then put_text w content a
      else if kind == kind_png
      then put w kind_png content (some (content_hash kind_png content)) a
      else if kind == kind_tar
      then put_staged w (w.unpack_to_stage content) a
      else (a, none)

  unfoldable pub on_result : Outside → FeedResult → Agent → Option (Agent × Option Incoming)
  unfolding write on_complete
  on_result w ping a = do a' ← write_anyway (frame t_pong 0 []) a; some (a', none)
  on_result w (progress n) a =
      if n % ack_every == 0
      then (do a' ← write_anyway (ack_frame n) a; some (a', none))
      else some (a, none)
  on_result w (offer o) a = some (a, some (offered o))
  on_result w (pull id) a = some (a, some (pulled id))
  on_result w (complete kind content) a = some (on_complete w kind content a)
  on_result w (error e) a = some (a, none)
  on_result w nothing a = some (a, none)

  unfoldable pub handle_frame : Outside → Bytes → Agent → Option (Agent × Option Incoming)
  unfolding on_result
  handle_frame w f a = let (r, x) = feed a.reasm f in on_result w x (record a { reasm = r })

  -- `send_with_retry` on the agent's connection
  unfoldable pub send_content : Outside → ℕ → Bytes → Agent → Option (Retried × Agent)
  send_content w kind content a = do
    (x, written) ← send_with_retry takes w.waits w.again a.written kind content
    some (x, record a { written = written })

  -- An archive that cannot be made is `Err(false)`.
  unfoldable pub send_packed : Outside → Option Bytes → Agent → Option (Retried × Agent)
  unfolding send_content
  send_packed w none a = some (abandoned, a)
  send_packed w (some tar) a = send_content w kind_tar tar a

  unfoldable pub push_local_offer : Outside → LocalOffer → Agent → Option (Retried × Agent)
  unfolding send_packed
  push_local_offer w lo a = send_packed w (w.pack lo.paths) a

  abbrev pub stepped : Option (Agent × Bool) → Step
  stepped none = fails
  stepped (some (a, true)) = stays a
  stepped (some (a, false)) = leaves a
