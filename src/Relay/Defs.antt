-- ===== src/Relay/Defs.antt =====
-- pi/bridge/src/bin/beaglewing-data.rs: the pump from the host, the pump to it, and the sessions.
-- The device and the sockets are the lists of what was written to them, oldest first. `writing` says
-- how the writes of a frame go, after these were written, and `sends` whether a write to a client
-- succeeds. A client is known by its address. The log is left out.
use beaglewing.Common.Bytes.{Bytes}
use beaglewing.Relay.Write.{Writing, Outcome, forwarded, dropped, lost, spins, write_frame}
use beaglewing.Common.{
  ◌==◌, if◌then◌else◌, length, drop, replicate, ℕ, Bool, true, false, Option, none, some, List, [],
  ◌∷◌, ◌++◌,
}

-- `current`, the buffer of the pump from the host, and what was written.
pub record Relay : Type 0 where
  pub current : Option ℕ
  pub buf : Bytes
  pub to_host : List Bytes
  pub to_client : List (ℕ × Bytes)

-- What a read of the device returns: some bytes, or none (nothing there yet, or an error).
pub data HostRead : Type 0 where
  report : Bytes → HostRead
  nothing : HostRead

-- Whether `peer_addr` works when a client is accepted, and on the socket in `current` when its session
-- ends; it fails on a connection that was reset.
pub record Naming : Type 0 where
  pub at_start : Bool
  pub at_end : Bool

-- What `read_exact` on a socket returns: a frame, or an error.
pub data ClientRead : Type 0 where
  frame : Bytes → ClientRead
  closed : ClientRead

-- The answer to a PING.
abbrev pub pong : Bytes
pong = 2 ∷ replicate 1023 0

abbrev pub is_ping : Bytes → Bool
is_ping [] = false
is_ping (b ∷ bs) = b == 1

module _ (writing : List Bytes → Bytes → Writing) (sends : List (ℕ × Bytes) → Bytes → Bool) where
  unfoldable pub forward : Option ℕ → Relay → Relay
  forward none r = r
  forward (some c) r = record r {
    current = if sends r.to_client r.buf then some c else none;
    to_client = r.to_client ++ ((c, r.buf) ∷ []);
  }

  -- A report that is shorter than the buffer leaves the rest of the buffer as it was.
  unfoldable pub host_step : HostRead → Relay → Relay
  unfolding forward
  host_step (report []) r = r
  host_step (report (b ∷ bs)) r =
      forward r.current (record r { buf = (b ∷ bs) ++ drop (length (b ∷ bs)) r.buf })
  host_step nothing r = r

  unfoldable pub wrote : Outcome → Bytes → Relay → Relay
  wrote forwarded f r = record r { to_host = r.to_host ++ (f ∷ []) }
  wrote dropped f r = r
  wrote lost f r = r
  wrote spins f r = r

  -- A read of the session with the client `peer`, and whether the session goes on.
  unfoldable pub client_step : ℕ → ClientRead → Relay → Relay × Bool
  unfolding wrote
  client_step peer (frame f) r =
      if is_ping f
      then (record r { to_client = r.to_client ++ ((peer, pong) ∷ []) }, sends r.to_client pong)
      else (wrote (write_frame (writing r.to_host f)) f r, true)
  client_step peer closed r = (r, false)

  -- The comparison of the names. A client whose name was not known is called "?", which is the name
  -- of no socket; a socket whose name is not known any more has none.
  unfoldable pub is_peer : Naming → ℕ → Option ℕ → Bool
  is_peer n peer none = false
  is_peer n peer (some c) = if n.at_end then (if n.at_start then c == peer else false) else false

  -- After a session the client is forgotten if `current` has its name.
  unfoldable pub end_session : Naming → ℕ → Relay → Relay
  unfolding is_peer
  end_session n peer r = record r { current = if is_peer n peer r.current then none else r.current }

  abbrev pub accept : ℕ → Relay → Relay
  accept peer r = record r { current = some peer }

-- What happens while a client is served: the two pumps take turns in any order.
pub data Event : Type 0 where
  from_host : HostRead → Event
  from_client : ClientRead → Event

module _ (writing : List Bytes → Bytes → Writing) (sends : List (ℕ × Bytes) → Bytes → Bool) where
  abbrev pub after_read : Relay × Bool → Naming → ℕ → (Relay → Relay) → Relay
  after_read (r, true) n peer more = more r
  after_read (r, false) n peer more = end_session writing sends n peer r

  -- The events of a session up to its end, from the state when it was accepted. What is left of
  -- them when it ends is not looked at.
  unfoldable pub serve : Naming → ℕ → List Event → Relay → Relay
  serve n peer [] r = r
  serve n peer (from_host x ∷ es) r = serve n peer es (host_step writing sends x r)
  serve n peer (from_client x ∷ es) r =
      after_read (client_step writing sends peer x r) n peer (serve n peer es)

  -- What comes from the host while there is no client.
  unfoldable pub idle : List HostRead → Relay → Relay
  idle [] r = r
  idle (x ∷ xs) r = idle xs (host_step writing sends x r)

  -- The clients one after the other: what comes from the host before, and the events of the session.
  unfoldable pub serve_all : List (List HostRead × Naming × ℕ × List Event) → Relay → Relay
  unfolding idle serve
  serve_all [] r = r
  serve_all ((xs, n, peer, es) ∷ clients) r =
      serve_all clients (serve n peer es (accept writing sends peer (idle xs r)))
