-- ===== src/Bridge/Session/Ends.antt =====
-- The loops of a session end, and the session stays sound.
use beaglewing.Bridge.Hid.{Report, Hid}
use beaglewing.Bridge.Hid.Valid.{IsValid}
use beaglewing.Bridge.Message.{Next, incomplete, malformed, message, next_frame}
use beaglewing.Bridge.Message.Parts.{IsTaken, next_frame-IsTaken}
use beaglewing.Bridge.Defs.{heartbeat_timeout}
use beaglewing.Bridge.Session.{
  and_then, Session, accepted, Round, Read, received, eof, would_block, read_error, handle_message,
  drain, read_batch, on_read, handle_round, handle_client,
}
use beaglewing.Bridge.Session.Outcomes.{
  Ensures, runs, closes, fails, Ensures-mono, Ensures-and_then,
}
use beaglewing.Bridge.Session.Valid.{IsSound, handle_message-Sound, take_pending-Sound}
use beaglewing.Common.Bytes.{Bytes, IsByte}
use beaglewing.Common.{
  ltb, if-cases, length, All, All-append, length-append, ℕ, zero, suc, ◌-◌, ◌<◌, ◌≡◌, refl, ◌⊎◌,
  inl, inr, Bool, List, [], ◌∷◌, ◌++◌, arith,
}

Next-cases :
    (n : Next)
    → (n ≡ incomplete) ⊎ ((n ≡ malformed) ⊎ ((t : ℕ) × (p r : Bytes) × (n ≡ message t p r)))
Next-cases incomplete = inl refl
Next-cases malformed = inr (inl refl)
Next-cases (message t p r) = inr (inr (t, p, r, refl))

All-split : (xs ys : Bytes) → All IsByte (xs ++ ys) → All IsByte xs × All IsByte ys
All-split [] ys h = (tt, h)
All-split (x ∷ xs) ys h = let (a, b) = All-split xs ys h.1 in ((h.0, a), b)

-- What a message taken from sound bytes leaves: bytes again, and fewer.
taken_bytes :
    {buf : Bytes} {t : ℕ} {payload rest : Bytes}
    → IsTaken buf t payload rest
    → All IsByte buf
    → All IsByte payload × All IsByte rest × (length rest < length buf)
taken_bytes {buf} {t} {payload} {rest} k h =
    let both = rw k.splits at h in
    let (a, b) = All-split payload rest both.1.1 in
    (a, b, rw k.splits (omega (arith, length-append payload rest)))

module _ (accepts : List Report → Report → Bool) (delivers : List Bytes → Bytes → Bool) where
  pub drain-step :
      (fuel : ℕ) (s : Session) {t : ℕ} {payload rest : Bytes}
      → next_frame s.buf ≡ message t payload rest
      → drain accepts delivers (suc fuel) s
        ≡ and_then
            (handle_message accepts delivers (record s { buf = rest }) t payload)
            (drain accepts delivers fuel)
  unfolding drain
  drain-step fuel s e = rw (e, drain)

  drain-stop :
      (fuel : ℕ) (s : Session)
      → IsSound s
      → (next_frame s.buf ≡ incomplete) ⊎ (next_frame s.buf ≡ malformed)
      → Ensures IsSound (drain accepts delivers (suc fuel) s)
  unfolding drain
  drain-stop fuel s v (inl e) = rw (e, drain) (runs v)
  drain-stop fuel s v (inr e) = rw (e, drain) (closes v)

  drain-IsSound :
      (fuel : ℕ) (s : Session)
      → IsSound s
      → length s.buf < fuel
      → Ensures IsSound (drain accepts delivers fuel s)
  drain-IsSound zero s v h = absurd (omega arith)
  drain-IsSound (suc fuel) s v h = elim (Next-cases (next_frame s.buf)) [
    | inl e ↦ drain-stop fuel s v (inl e)
    | inr (inl e) ↦ drain-stop fuel s v (inr e)
    | inr (inr (t, payload, rest, e)) ↦
        let k = next_frame-IsTaken s.buf e in
        let (a, b, shorter) = taken_bytes k v.buffered in
        let w : IsSound (record s { buf = rest }) = record {
          device = v.device;
          buffered = b;
          pending = v.pending;
        } in
        rw (drain-step fuel s e) (
          Ensures-and_then (handle_message-Sound accepts delivers _ t payload w a k.sized)
            (λ z q. q.0) (λ z q. drain-IsSound fuel z q.0 (rw q.1 (omega arith))))
  ]

  read_batch-IsSound :
      (s : Session) (bytes : Bytes) (now : ℕ)
      → IsSound s
      → All IsByte bytes
      → Ensures IsSound (read_batch accepts delivers s bytes now)
  unfolding read_batch
  read_batch-IsSound s bytes now v h =
      let s' : Session = record s { buf = s.buf ++ bytes; last_rx = now } in
      let w : IsSound s' = record {
        device = v.device;
        buffered = All-append IsByte s.buf bytes v.buffered h;
        pending = v.pending;
      } in
      Ensures-and_then (drain-IsSound (suc (length s'.buf)) s' w (omega arith)) (λ z q. q)
        (λ z q. runs (take_pending-Sound accepts delivers z q).0)

  abbrev pub AreBytes : Read → Type 0
  AreBytes (received bytes) = All IsByte bytes
  AreBytes _ = Unit

  on_read-IsSound :
      (s : Session) (r : Read) (now : ℕ)
      → IsSound s
      → AreBytes r
      → Ensures IsSound (on_read accepts delivers s r now)
  unfolding on_read
  on_read-IsSound s (received bytes) now v h = read_batch-IsSound s bytes now v h
  on_read-IsSound s eof now v h = closes v
  on_read-IsSound s would_block now v h = runs v
  on_read-IsSound s read_error now v h = fails v

  handle_client-IsSound :
      (rounds : List Round) (s : Session)
      → IsSound s
      → All (λ r. AreBytes r.read) rounds
      → Ensures IsSound (handle_client accepts delivers s rounds)
  unfolding handle_client handle_round
  handle_client-IsSound [] s v h = runs v
  handle_client-IsSound (r ∷ rs) s v (h, hs) =
      let P = Ensures IsSound in
      let round : Ensures IsSound (handle_round accepts delivers s r) =
        if-cases P r.shutdown (λ _. closes v)
          λ _.
            if-cases P (ltb heartbeat_timeout (r.now - s.last_rx)) (λ _. closes v)
              λ _. on_read-IsSound s r.read r.read_at v h in
      Ensures-and_then round (λ z q. q) (λ z q. handle_client-IsSound rs z q hs)

  -- A session that is accepted with a well-formed device state, and receives bytes, never runs
  -- out of fuel in its loop over the buffer; whether it goes on or has returned, the device state
  -- is well formed, and every report that it tried to write so far has the layout of its kind: eight
  -- bytes, or six with no more than three buttons and with positions of 15 bits.
  pub handle_client-Ensures-IsValid :
      (hid : Hid) (now : ℕ) (rounds : List Round)
      → IsValid hid
      → All (λ r. AreBytes r.read) rounds
      → Ensures (λ s. IsValid s.hid) (handle_client accepts delivers (accepted hid now) rounds)
  handle_client-Ensures-IsValid hid now rounds v h =
      Ensures-mono (λ z q. q.device)
        (handle_client-IsSound rounds (accepted hid now)
          (record { device = v; buffered = tt; pending = tt }) h)
