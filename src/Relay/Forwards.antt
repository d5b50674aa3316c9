-- ===== src/Relay/Forwards.antt =====
-- What the relay passes on while both sides work.
use beaglewing.Clipframe.Defs.{frame_len}
use beaglewing.Common.Bytes.{Bytes}
use beaglewing.Relay.Write.{Writing, forwarded, write_frame}
use beaglewing.Relay.Defs.{
  Naming, Relay, report, nothing, frame, closed, pong, is_ping, forward, host_step, wrote,
  client_step, Event, from_host, from_client, serve,
}
use beaglewing.Common.{
  if◌then◌else◌, Bool-cases, length, drop, All, ℕ, ◌≡◌, refl, sym, ap, ◌∙◌, inl, inr, Bool, true,
  false, some, List, [], ◌∷◌, ◌++◌, append-nil, append_assoc, arith,
}

-- The client sends frames, the host whole reports, and nobody leaves.
abbrev pub IsWhole : Event → Type 0
IsWhole (from_host (report f)) = length f ≡ frame_len
IsWhole (from_host nothing) = Unit {0}
IsWhole (from_client (frame f)) = Unit {0}
IsWhole (from_client closed) = ⊥

-- The client's frames that are no PING.
unfoldable pub requests : List Event → List Bytes
requests [] = []
requests (from_client (frame f) ∷ es) =
    let rest = requests es in if is_ping f then rest else f ∷ rest
requests (e ∷ es) = requests es

-- What the client gets: the host's reports, and a PONG for each PING.
unfoldable pub replies : ℕ → List Event → List (ℕ × Bytes)
replies peer [] = []
replies peer (from_host (report f) ∷ es) = (peer, f) ∷ replies peer es
replies peer (from_client (frame f) ∷ es) =
    let rest = replies peer es in if is_ping f then (peer, pong) ∷ rest else rest
replies peer (e ∷ es) = replies peer es

module _ (writing : List Bytes → Bytes → Writing) (sends : List (ℕ × Bytes) → Bytes → Bool)
    (drains : (w : List Bytes) (f : Bytes) → write_frame (writing w f) ≡ forwarded)
    (reaches : (w : List (ℕ × Bytes)) (f : Bytes) → sends w f ≡ true) where
  pub record IsServing (peer : ℕ) (r : Relay) : Type 0 where
    pub connected : r.current ≡ some peer
    pub buffered : length r.buf ≡ frame_len

  replaced : (f buf : Bytes) → length f ≡ length buf → f ++ drop (length f) buf ≡ f
  replaced [] [] h = refl
  replaced [] (b ∷ bs) h = absurd (omega (arith, h))
  replaced (a ∷ f) [] h = absurd (omega (arith, h))
  replaced (a ∷ f) (b ∷ bs) h = ap (λ z. a ∷ z) (replaced f bs (omega (arith, h)))

  host_step-report :
      (peer : ℕ) (f : Bytes) (r : Relay)
      → length f ≡ frame_len
      → IsServing peer r
      → host_step writing sends (report f) r
        ≡ record r { current = some peer; buf = f; to_client = r.to_client ++ ((peer, f) ∷ []) }
  unfolding host_step
  host_step-report peer [] r h s = absurd (omega (arith, h))
  host_step-report peer (b ∷ bs) r h s =
      rw (s.connected, forward)
        (rw (replaced (b ∷ bs) r.buf (omega (arith, h, s.buffered)), reaches r.to_client (b ∷ bs))
          refl)

  -- A state that serves `peer` and has written these, beyond `r`.
  pub data IsAfter (peer : ℕ) (r : Relay) (down : List Bytes) (up : List (ℕ × Bytes)) (t : Relay)
      : Type 0 where
    after :
        t.to_host ≡ r.to_host ++ down
        → t.to_client ≡ r.to_client ++ up
        → IsServing peer t
        → IsAfter peer r down up t

  host-IsAfter :
      (peer : ℕ) (f : Bytes) (r : Relay) (down : List Bytes) (up : List (ℕ × Bytes)) (t : Relay)
      → IsAfter peer
          (record r { current = some peer; buf = f; to_client = r.to_client ++ ((peer, f) ∷ []) })
          down
          up
          t
      → IsAfter peer r down ((peer, f) ∷ up) t
  host-IsAfter peer f r down up t (after d u s) =
      after d (u ∙ append_assoc r.to_client ((peer, f) ∷ []) up) s

  ping-IsAfter :
      (peer : ℕ) (r : Relay) (down : List Bytes) (up : List (ℕ × Bytes)) (t : Relay)
      → IsAfter peer (record r { to_client = r.to_client ++ ((peer, pong) ∷ []) }) down up t
      → IsAfter peer r down ((peer, pong) ∷ up) t
  ping-IsAfter peer r down up t (after d u s) =
      after d (u ∙ append_assoc r.to_client ((peer, pong) ∷ []) up) s

  request-IsAfter :
      (peer : ℕ) (f : Bytes) (r : Relay) (down : List Bytes) (up : List (ℕ × Bytes)) (t : Relay)
      → IsAfter peer (record r { to_host = r.to_host ++ (f ∷ []) }) down up t
      → IsAfter peer r (f ∷ down) up t
  request-IsAfter peer f r down up t (after d u s) =
      after (d ∙ append_assoc r.to_host (f ∷ []) down) u s

  client_step-ping :
      (peer : ℕ) (f : Bytes) (r : Relay)
      → is_ping f ≡ true
      → client_step writing sends peer (frame f) r
        ≡ (record r { to_client = r.to_client ++ ((peer, pong) ∷ []) }, true)
  unfolding client_step
  client_step-ping peer f r h = rw (h, reaches r.to_client pong) refl

  client_step-request :
      (peer : ℕ) (f : Bytes) (r : Relay)
      → is_ping f ≡ false
      → client_step writing sends peer (frame f) r
        ≡ (record r { to_host = r.to_host ++ (f ∷ []) }, true)
  unfolding client_step
  client_step-request peer f r h = rw h (rw (drains r.to_host f, wrote) refl)

  quiet-IsAfter :
      (n : Naming) (peer : ℕ) (es : List Event) (r : Relay) {down : List Bytes}
      {up : List (ℕ × Bytes)}
      → IsAfter peer r down up (serve writing sends n peer es r)
      → IsAfter peer r down up (serve writing sends n peer es (host_step writing sends nothing r))
  unfolding host_step
  quiet-IsAfter n peer es r h = h

  -- While the host drains the channel, the socket works, the host sends whole reports and the client
  -- stays, the relay passes on every frame of the client that is no PING, and every report of the
  -- host, unchanged and in order; and it answers each PING with a PONG, in its place between the
  -- reports, however the two directions take turns.
  pub serve-IsAfter :
      (n : Naming) (peer : ℕ) (es : List Event) (r : Relay)
      → IsServing peer r
      → All IsWhole es
      → IsAfter peer r (requests es) (replies peer es) (serve writing sends n peer es r)
  unfolding serve requests replies
  serve-IsAfter n peer [] r s h =
      after (sym (append-nil r.to_host)) (sym (append-nil r.to_client)) s
  serve-IsAfter n peer (from_host (report f) ∷ es) r s (h, hs) =
      let t : Relay = record r {
        current = some peer;
        buf = f;
        to_client = r.to_client ++ ((peer, f) ∷ []);
      } in
      rw (host_step-report peer f r h s) (
        host-IsAfter peer f r _ _ _
          (serve-IsAfter n peer es t (record { connected = refl; buffered = h }) hs))
  serve-IsAfter n peer (from_host nothing ∷ es) r s (h, hs) =
      quiet-IsAfter n peer es r (serve-IsAfter n peer es r s hs)
  serve-IsAfter n peer (from_client closed ∷ es) r s (h, hs) = absurd h
  serve-IsAfter n peer (from_client (frame f) ∷ es) r s (h, hs) =
      let asked : Relay = record r { to_client = r.to_client ++ ((peer, pong) ∷ []) } in
      let sent : Relay = record r { to_host = r.to_host ++ (f ∷ []) } in
      let on : IsServing peer asked = record { connected = s.connected; buffered = s.buffered } in
      let on' : IsServing peer sent = record { connected = s.connected; buffered = s.buffered } in
      elim (Bool-cases (is_ping f)) [
        | inl p ↦
            rw (client_step-ping peer f r p, p)
              (ping-IsAfter peer r _ _ _ (serve-IsAfter n peer es asked on hs))
        | inr q ↦
            rw (client_step-request peer f r q, q)
              (request-IsAfter peer f r _ _ _ (serve-IsAfter n peer es sent on' hs))
      ]
