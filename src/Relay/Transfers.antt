-- ===== src/Relay/Transfers.antt =====
-- A transfer that the agent on the desktop sends reaches the helper through the relay.
use beaglewing.Clipframe.Defs.{max_payload, max_transfer}
use beaglewing.Clipframe.Encode.{encode_transfer}
use beaglewing.Clipframe.Encode.Frames.{data_frames_from, transfer_frames, encode_transfer-eq}
use beaglewing.Clipframe.Frame.{frame_bytes}
use beaglewing.Common.Bytes.{Bytes}
use beaglewing.Helper.Defs.{Helper}
use beaglewing.Helper.Reader.{on_frames}
use beaglewing.Helper.Reader.Transfer.{on_frames-transfer}
use beaglewing.Relay.Defs.{
  Naming, Relay, frame, closed, is_ping, Event, from_host, from_client, serve,
}
use beaglewing.Relay.Forwards.{IsWhole, requests, IsServing, IsAfter, after, serve-IsAfter}
use beaglewing.Relay.Write.{Writing, forwarded, write_frame}
use beaglewing.Common.{
  length, All, All-append, chunks, ℕ, ◌≤◌, ◌≡◌, refl, ap, ◌∙◌, Bool, true, false, some, List, [],
  ◌∷◌, ◌++◌,
}

-- All frames of the client.
unfoldable pub client_frames : List Event → List Bytes
client_frames [] = []
client_frames (from_client (frame f) ∷ es) = f ∷ client_frames es
client_frames (e ∷ es) = client_frames es

abbrev IsNoPing : Bytes → Type 0
IsNoPing f = is_ping f ≡ false

requests-client_frames :
    (es : List Event) → All IsNoPing (client_frames es) → requests es ≡ client_frames es
unfolding requests client_frames
requests-client_frames [] h = refl
requests-client_frames (from_client (frame f) ∷ es) (h, hs) =
    rw h (ap (λ z. f ∷ z) (requests-client_frames es hs))
requests-client_frames (from_client closed ∷ es) h = requests-client_frames es h
requests-client_frames (from_host x ∷ es) h = requests-client_frames es h

data_frames_from-IsNoPing : (cs : List Bytes) (seq : ℕ) → All IsNoPing (data_frames_from seq cs)
unfolding data_frames_from frame_bytes
data_frames_from-IsNoPing [] seq = tt
data_frames_from-IsNoPing (c ∷ cs) seq = (refl, data_frames_from-IsNoPing cs _)

transfer_frames-IsNoPing :
    (kind : ℕ) (content : Bytes) → All IsNoPing (transfer_frames kind content)
unfolding frame_bytes
transfer_frames-IsNoPing kind content = (
  refl,
  All-append IsNoPing (data_frames_from 0 (chunks max_payload content)) _
      (data_frames_from-IsNoPing (chunks max_payload content) 0) (refl, tt),
)

after-to_host :
    {writing : List Bytes → Bytes → Writing} {sends : List (ℕ × Bytes) → Bytes → Bool}
    {drains : (w : List Bytes) (f : Bytes) → write_frame (writing w f) ≡ forwarded}
    {reaches : (w : List (ℕ × Bytes)) (f : Bytes) → sends w f ≡ true} {peer : ℕ} {r t : Relay}
    {down : List Bytes} {up : List (ℕ × Bytes)}
    → IsAfter writing sends drains reaches peer r down up t
    → t.to_host ≡ r.to_host ++ down
after-to_host (after d u s) = d

-- A transfer within the limit that the agent on the desktop sends while its relay serves it, the
-- host drains the channel and everything works, with reports of the host in between at any places,
-- is written to the host whole and in order; the helper, whatever it was receiving, hands it to its
-- applier.
pub serve-transfer :
    (writing : List Bytes → Bytes → Writing) (sends : List (ℕ × Bytes) → Bytes → Bool)
    (takes : List Bytes → Bytes → Bool)
    (drains : (w : List Bytes) (f : Bytes) → write_frame (writing w f) ≡ forwarded)
    (reaches : (w : List (ℕ × Bytes)) (f : Bytes) → sends w f ≡ true)
    → ((written : List Bytes) (f : Bytes) → takes written f ≡ true)
    → (n : Naming) (peer : ℕ) (es : List Event) (r : Relay) (s : Helper) (kind : ℕ)
      (content : Bytes)
    → IsServing writing sends drains reaches peer r
    → All IsWhole es
    → s.dev.opened ≡ true
    → length content ≤ max_transfer
    → encode_transfer kind content ≡ some (client_frames es)
    → (fs : List Bytes) × (t : Helper) × ((serve writing sends n peer es r).to_host
        ≡ r.to_host ++ fs)
      × (on_frames takes fs s ≡ some t)
      × (t.queue ≡ s.queue ++ ((kind, content) ∷ []))
serve-transfer writing sends takes drains reaches taken n peer es r s kind content serving whole
      opened small encoded =
    let (frames, made, ran) = on_frames-transfer takes taken s kind content opened small in
    let same : client_frames es ≡ frames = cc (encoded, made) in
    let calm : All IsNoPing (client_frames es) =
      rw (same, the_frames made) (transfer_frames-IsNoPing kind content) in
    (
      frames,
      _,
      after-to_host (serve-IsAfter writing sends drains reaches n peer es r serving whole)
          ∙ ap (λ z. r.to_host ++ z) (requests-client_frames es calm ∙ same),
      ran,
      refl,
    )
  where
    the_frames :
        {fs : List Bytes}
        → encode_transfer kind content ≡ some fs
        → fs ≡ transfer_frames kind content
    the_frames e = cc (e, encode_transfer-eq kind content)
