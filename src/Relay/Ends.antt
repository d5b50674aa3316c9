-- ===== src/Relay/Ends.antt =====
-- How a session ends, and to whom the relay writes.
use mathlib.Core.Path.{subst}
use beaglewing.Common.Bytes.{Bytes}
use beaglewing.Relay.Write.{Writing, Outcome, forwarded, dropped, lost, spins, write_frame}
use beaglewing.Relay.Defs.{
  Naming, Relay, HostRead, report, nothing, ClientRead, frame, closed, pong, is_ping, forward,
  host_step, wrote, client_step, is_peer, end_session, accept, Event, from_host, from_client, serve,
  after_read, idle,
}
use beaglewing.Common.{
  ◌==◌, if◌then◌else◌, Bool-cases, if-cases, length, drop, All, All-append, ℕ, ◌≡◌, refl, sym, ap,
  ◌∙◌, ◌⊎◌, inl, inr, Bool, true, false, ◌&&◌, Option, none, some, List, [], ◌∷◌, ◌++◌, append-nil,
  append_assoc, arith,
}

-- written to this client
abbrev pub IsFor : ℕ → ℕ × Bytes → Type 0
IsFor peer x = x.0 ≡ peer

module _ (writing : List Bytes → Bytes → Writing) (sends : List (ℕ × Bytes) → Bytes → Bool)
    (peer : ℕ) where
  -- Nobody or this client is connected, and since `r` only this client was written to.
  record IsOwn (r t : Relay) : Type 0 where
    connected : (t.current ≡ none) ⊎ (t.current ≡ some peer)
    new : List (ℕ × Bytes)
    wrote_new : t.to_client ≡ r.to_client ++ new
    own : All (IsFor peer) new

  written-IsOwn :
      (r t : Relay) (o : Option ℕ) (f : Bytes)
      → (o ≡ none) ⊎ (o ≡ some peer)
      → IsOwn r t
      → IsOwn r (record t { current = o; to_client = t.to_client ++ ((peer, f) ∷ []) })
  written-IsOwn r t o f c i = record {
    connected = c;
    new = i.new ++ ((peer, f) ∷ []);
    wrote_new =
        ap (λ z. z ++ ((peer, f) ∷ [])) i.wrote_new
        ∙ append_assoc r.to_client i.new ((peer, f) ∷ []);
    own = All-append (IsFor peer) i.new ((peer, f) ∷ []) i.own (refl, tt);
  }

  forward-IsOwn :
      (r t : Relay) (o : Option ℕ)
      → (o ≡ none) ⊎ (o ≡ some peer)
      → IsOwn r t
      → IsOwn r (forward writing sends o t)
  unfolding forward
  forward-IsOwn r t none c i = i
  forward-IsOwn r t (some p) c i =
      let same : peer ≡ p = elim c [ inl e ↦ absurd (cc) | inr e ↦ cc ] in
      subst
        (λ q. IsOwn r (record t {
          current = if sends t.to_client t.buf then some q else none;
          to_client = t.to_client ++ ((q, t.buf) ∷ []);
        }))
        same
        (written-IsOwn r t (if sends t.to_client t.buf then some peer else none) t.buf
          (if-cases (λ o. (o ≡ none) ⊎ (o ≡ some peer)) (sends t.to_client t.buf) (λ _. inr refl)
            (λ _. inl refl))
          i)

  host_step-IsOwn : (r t : Relay) (x : HostRead) → IsOwn r t → IsOwn r (host_step writing sends x t)
  unfolding host_step
  host_step-IsOwn r t (report []) i = i
  host_step-IsOwn r t (report (b ∷ bs)) i =
      forward-IsOwn r (record t { buf = (b ∷ bs) ++ drop (length (b ∷ bs)) t.buf }) t.current
        i.connected
        (record { connected = i.connected; new = i.new; wrote_new = i.wrote_new; own = i.own })
  host_step-IsOwn r t nothing i = i

  wrote-IsOwn :
      (r t : Relay) (o : Outcome) (f : Bytes) → IsOwn r t → IsOwn r (wrote writing sends o f t)
  unfolding wrote
  wrote-IsOwn r t forwarded f i = record {
    connected = i.connected;
    new = i.new;
    wrote_new = i.wrote_new;
    own = i.own;
  }
  wrote-IsOwn r t dropped f i = i
  wrote-IsOwn r t lost f i = i
  wrote-IsOwn r t spins f i = i

  client_step-IsOwn :
      (r t : Relay) (x : ClientRead) → IsOwn r t → IsOwn r (client_step writing sends peer x t).0
  unfolding client_step
  client_step-IsOwn r t closed i = i
  client_step-IsOwn r t (frame f) i = elim (Bool-cases (is_ping f)) [
    | inl p ↦ rw p (written-IsOwn r t t.current pong i.connected i)
    | inr q ↦ rw q (wrote-IsOwn r t (write_frame (writing t.to_host f)) f i)
  ]

  module _ (n : Naming) where
    -- Whether the name of the client could be read both times.
    abbrev pub named : Bool
    named = n.at_end && n.at_start

    forgotten :
        (o : Option ℕ)
        → (o ≡ none) ⊎ (o ≡ some peer)
        → ((if is_peer writing sends n peer o then none else o) ≡ none)
          ⊎ ((named ≡ false) × ((if is_peer writing sends n peer o then none else o) ≡ some peer))
    unfolding is_peer
    forgotten none c = inl refl
    forgotten (some p) c =
        let same : p ≡ peer = elim c [ inl e ↦ absurd (cc) | inr e ↦ cc ] in
        let own : (p == peer) ≡ true = ground arith in
        elim (Bool-cases n.at_end) [
          | inr e ↦ rw e (inr (refl, ap some same))
          | inl e ↦ elim (Bool-cases n.at_start) [
            | inr s ↦ rw (e, s) (inr (refl, ap some same))
            | inl s ↦ rw (e, s) (rw own (inl refl))
          ]
        ]

    -- The session is over: nobody is connected, or the client is still taken for connected as its
    -- name could not be read. Only this client was written to.
    data IsOver (r t : Relay) : Type 0 where
      over :
          (new : List (ℕ × Bytes))
          → (t.current ≡ none) ⊎ ((named ≡ false) × (t.current ≡ some peer))
          → t.to_client ≡ r.to_client ++ new
          → All (IsFor peer) new
          → IsOver r t

    end_session-IsOver : (r t : Relay) → IsOwn r t → IsOver r (end_session writing sends n peer t)
    unfolding end_session
    end_session-IsOver r t i = over i.new (forgotten t.current i.connected) i.wrote_new i.own

    after_read-IsOver :
        (r : Relay) (o : Relay × Bool) (more : Relay → Relay)
        → IsOwn r o.0
        → (IsOwn r o.0 → IsOver r (more o.0))
        → IsOver r (after_read writing sends o n peer more)
    after_read-IsOver r (t, true) more i go = go i
    after_read-IsOver r (t, false) more i go = end_session-IsOver r t i

    serve-IsOver :
        (r t : Relay) (es rest : List Event)
        → IsOwn r t
        → IsOver r (serve writing sends n peer (es ++ (from_client closed ∷ rest)) t)
    unfolding serve
    serve-IsOver r t [] rest i = unfold client_step in end_session-IsOver r t i
    serve-IsOver r t (from_host x ∷ es) rest i =
        serve-IsOver r (host_step writing sends x t) es rest (host_step-IsOwn r t x i)
    serve-IsOver r t (from_client x ∷ es) rest i =
        after_read-IsOver r (client_step writing sends peer x t)
          (serve writing sends n peer (es ++ (from_client closed ∷ rest)))
          (client_step-IsOwn r t x i)
          (λ k. serve-IsOver r (client_step writing sends peer x t).0 es rest k)

  host_step-alone :
      (x : HostRead) (t : Relay)
      → t.current ≡ none
      → ((host_step writing sends x t).current ≡ none)
        × ((host_step writing sends x t).to_client ≡ t.to_client)
  unfolding host_step
  host_step-alone (report []) t h = (h, refl)
  host_step-alone (report (b ∷ bs)) t h = rw (h, forward) (refl, refl)
  host_step-alone nothing t h = (h, refl)

  idle-to_client :
      (xs : List HostRead) (t : Relay)
      → t.current ≡ none
      → (idle writing sends xs t).to_client ≡ t.to_client
  unfolding idle
  idle-to_client [] t h = refl
  idle-to_client (x ∷ xs) t h =
      let (c, e) = host_step-alone x t h in idle-to_client xs (host_step writing sends x t) c ∙ e

  idle-IsOwn : (r t : Relay) (xs : List HostRead) → IsOwn r t → IsOwn r (idle writing sends xs t)
  unfolding idle
  idle-IsOwn r t [] i = i
  idle-IsOwn r t (x ∷ xs) i =
      idle-IsOwn r (host_step writing sends x t) xs (host_step-IsOwn r t x i)

  -- The state `t` in which the session left the relay that was in `r`, until the next client: nobody
  -- is connected, and then what comes from the host is written to none; or the client's name could
  -- not be read when it was accepted or when its session ended, and it is still taken for connected
  -- until a write to it fails. Only this client was written to.
  pub data IsLeft (n : Naming) (r t : Relay) (xs : List HostRead) : Type 0 where
    alone :
        (new : List (ℕ × Bytes))
        → t.current ≡ none
        → t.to_client ≡ r.to_client ++ new
        → All (IsFor peer) new
        → (idle writing sends xs t).to_client ≡ t.to_client
        → IsLeft n r t xs
    unforgotten :
        (new later : List (ℕ × Bytes))
        → named n ≡ false
        → t.current ≡ some peer
        → t.to_client ≡ r.to_client ++ new
        → All (IsFor peer) new
        → (idle writing sends xs t).to_client ≡ t.to_client ++ later
        → All (IsFor peer) later
        → IsLeft n r t xs

  -- A session whose client closes its connection or loses it, whatever went before in both directions
  -- and however the writes went, ends with nobody connected, provided that the client's name could
  -- be read when it was accepted and when the session ended; otherwise the relay may still take it
  -- for connected. In the session and until the next client is accepted the relay writes to this
  -- client only, and after the session to none if nobody is connected.
  pub serve-closed :
      (n : Naming) (r : Relay) (es rest : List Event) (xs : List HostRead)
      → IsLeft n r
          (serve writing sends n peer
            (es ++ (from_client closed ∷ rest))
            (accept writing sends peer r))
          xs
  serve-closed n r es rest xs = left (
      serve-IsOver n r (accept writing sends peer r) es rest (record {
        connected = inr refl;
        new = [];
        wrote_new = sym (append-nil r.to_client);
        own = tt;
      }))
    where
      left : {t : Relay} → IsOver n r t → IsLeft n r t xs
      left {t} (over new (inl c) e h) = alone new c e h (idle-to_client xs t c)
      left {t} (over new (inr (unknown, c)) e h) =
          let i = idle-IsOwn t t xs (record {
            connected = inr c;
            new = [];
            wrote_new = sym (append-nil t.to_client);
            own = tt;
          }) in
          unforgotten new i.new unknown c e h i.wrote_new i.own
