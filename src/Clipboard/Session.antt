-- ===== src/Clipboard/Session.antt =====
-- linux/input-router/src/clipboard.rs: the loop of a session, an event at a time.
pub mod Echo
pub mod Offers
pub mod Push
use beaglewing.Clipboard.Agent.{
  LocalOffer, RemoteOffer, Agent, Control, to_remote, to_local, to_pull, to_other, Ev, changed,
  arrived, asked, tick, disconnected, Outside, Incoming, offered, pulled, finished, Step, stays,
  leaves, fails, write, handle_frame, send_content, push_local_offer, stepped,
}
use beaglewing.Clipboard.Sending.{Retried, sent, gone, abandoned, unfinished}
use beaglewing.Clipboard.Text.{offer_id, parse_file_list}
use beaglewing.Clipframe.Defs.{t_ping, kind_tar}
use beaglewing.Clipframe.Frame.{Offer, frame, offer_frame, pull_frame}
use beaglewing.Clipframe.Reassembler.{fresh}
use beaglewing.Common.Bytes.{Bytes}
use beaglewing.Common.{
  ltb, ◌==◌, if◌then◌else◌, ◌>>=◌, length, ℕ, ◌-◌, ◌^◌, min, Bool, true, false, not, ◌||◌, Option,
  none, some, List, [],
}

module _ (takes : List Bytes → Bytes → Bool) (trim lossy : Bytes → Bytes) where
  -- What follows on an attempt to send: `on_ok` and `on_refused` are what `Ok` and `Err(false)` do
  -- to the agent.
  abbrev pub after_push : (Agent → Agent) → (Agent → Agent) → Option (Retried × Agent) → Step
  after_push on_ok on_refused none = fails
  after_push on_ok on_refused (some (sent, a)) = stays (on_ok a)
  after_push on_ok on_refused (some (abandoned, a)) = stays (on_refused a)
  after_push on_ok on_refused (some (gone, a)) = leaves a
  after_push on_ok on_refused (some (unfinished, a)) = fails

  -- the OFFER for a batch with this signature and size
  unfoldable pub offer_batch : Option (ℕ × ℕ) → List Bytes → ℕ → Agent → Step
  unfolding write
  offer_batch none paths h a = stays a
  offer_batch (some (sig, total)) paths h a =
      let what : Offer = record {
        kind = kind_tar;
        total = min total (2 ^ 32 - 1);
        items = min (length paths) (2 ^ 16 - 1);
        id = offer_id h;
      } in
      stepped takes trim lossy (do
        (a', ok) ← write takes trim lossy (offer_frame what) a
        some (
            if ok
            then (
              record a' {
                local_offer = some (record { id = what.id; paths = paths });
                last_sent = h;
              },
              true,
            )
            else (a', false)))

  unfoldable pub on_files : Outside → List Bytes → ℕ → Agent → Step
  unfolding offer_batch
  on_files w paths h a = offer_batch (w.batch_signature paths) paths h a

  unfoldable pub on_changed : Outside → ℕ → Bytes → ℕ → Agent → Step
  unfolding on_files send_content
  on_changed w kind content h a =
      if h == a.last_sent || h == a.last_set
      then stays a
      else if kind == kind_tar
      then on_files w (parse_file_list trim lossy content) h a
      else after_push (λ a'. record a' { last_sent = h }) (λ a'. record a' { last_sent = h })
          (send_content takes trim lossy w kind content (record a { local_offer = none }))

  unfoldable pub on_pull : Outside → ℕ → Option LocalOffer → Agent → Step
  unfolding push_local_offer
  on_pull w id none a = stays a
  on_pull w id (some lo) a =
      if lo.id == id
      then after_push (λ a'. record a' { local_offer = none }) (λ a'. a')
          (push_local_offer takes trim lossy w lo a)
      else stays a

  unfoldable pub on_incoming : Outside → Option Incoming → Agent → Step
  unfolding on_pull
  on_incoming w none a = stays a
  on_incoming w (some (offered o)) a =
      stays (record a { remote_offer = some (record { what = o; requested = false }) })
  on_incoming w (some (pulled id)) a = on_pull w id a.local_offer a
  on_incoming w (some (finished kind)) a =
      if kind == kind_tar then stays (record a { remote_offer = none }) else stays a

  -- the match on what `handle_frame` returned
  unfoldable pub received : Outside → Option (Agent × Option Incoming) → Step
  unfolding on_incoming
  received w none = fails
  received w (some (a, x)) = on_incoming w x a

  unfoldable pub on_arrived : Outside → Bytes → Agent → Step
  unfolding received
  on_arrived w f a = received w (handle_frame takes trim lossy w f (record a { last_rx = w.now }))

  -- `local_offer.take()`
  unfoldable pub push_offer : Outside → Option LocalOffer → Agent → Step
  unfolding push_local_offer
  push_offer w none a = stays a
  push_offer w (some lo) a =
      after_push (λ a'. a') (λ a'. record a' { local_offer = some lo })
        (push_local_offer takes trim lossy w lo (record a { local_offer = none }))

  unfoldable pub request : Bool → Option RemoteOffer → Agent → Step
  unfolding write
  request explicit none a = stays a
  request explicit (some ro) a =
      if not ro.requested || explicit
      then stepped takes trim lossy (
          write takes trim lossy (pull_frame ro.what.id)
            (record a { remote_offer = some (record ro { requested = true }) }))
      else stays a

  abbrev pub then_step : Step → (Agent → Step) → Step
  then_step (stays a) next = next a
  then_step (leaves a) next = leaves a
  then_step fails next = fails

  unfoldable pub on_asked : Outside → Control → Agent → Step
  unfolding push_offer request
  on_asked w to_remote a = push_offer w a.local_offer a
  on_asked w to_local a = request false a.remote_offer a
  on_asked w to_pull a =
      then_step (push_offer w a.local_offer a) (λ a'. request true a'.remote_offer a')
  on_asked w to_other a = stays a

  unfoldable pub on_tick : Outside → Agent → Step
  unfolding write
  on_tick w a =
      if ltb 30000 (w.now - a.last_rx)
      then leaves a
      else stepped takes trim lossy (write takes trim lossy (frame t_ping 0 []) a)

  unfoldable pub on_event : Outside → Ev → Agent → Step
  unfolding on_changed on_arrived on_asked on_tick
  on_event w tick a = on_tick w a
  on_event w (changed kind content h) a = on_changed w kind content h a
  on_event w (arrived f) a = on_arrived w f a
  on_event w (asked c) a = on_asked w c a
  on_event w disconnected a = leaves a

  -- The agent at the start, and on a new connection after an old one.
  abbrev pub begun : ℕ → Agent
  begun now = record {
    last_sent = 0;
    last_set = 0;
    local_offer = none;
    remote_offer = none;
    reasm = fresh;
    last_rx = now;
    written = [];
    clipboard = [];
  }

  abbrev pub reconnected : ℕ → Agent → Agent
  reconnected now a = record a { reasm = fresh; last_rx = now; written = [] }
