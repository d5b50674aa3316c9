-- ===== src/Bridge/Session/Valid.antt =====
-- A session keeps the device state well formed whatever bytes arrive, and its loops end.
use beaglewing.Bridge.Hid.{Report, Hid, held_key_count}
use beaglewing.Bridge.Hid.Valid.{
  IsValid, keyed-IsValid, key_event-IsValid, flush_ptr-IsValid, pointed-IsValid,
  release_all-IsValid,
}
use beaglewing.Bridge.Message.{encode, expected_len}
use beaglewing.Bridge.Defs.{
  protocol_version, msg_hello, msg_hello_ack, msg_keepalive, msg_key_down, msg_key_up,
  msg_key_state, msg_pointer_abs, msg_pointer_button, msg_pointer_wheel, msg_release_all,
  msg_get_status, msg_status,
}
use beaglewing.Bridge.Session.{
  Session, payload_byte, send_to, flush_pending, take_pending, greet, dispatch, needs_flush,
  handle_message,
}
use beaglewing.Bridge.Session.Outcomes.{Ensures, runs, closes, fails, Ensures-mono}
use beaglewing.Common.Bytes.{Bytes, IsByte, IsU16, u16_from_le, u16_to_le}
use beaglewing.Common.{
  ◌==◌, if◌then◌else◌, if-cases, Option-cases, length, take, drop, All, All-take, All-drop,
  length-take, length-drop, ℕ, zero, suc, ◌≡◌, refl, ◌∙◌, inl, inr, Bool, true, false, not, ◌||◌,
  Option, none, some, List, [], ◌∷◌, ◌++◌, arith,
}

abbrev pub IsPosition : Option (ℕ × ℕ) → Type 0
IsPosition none = Unit
IsPosition (some (x, y)) = IsU16 x × IsU16 y

pub record IsSound (s : Session) : Type 0 where
  pub device : IsValid s.hid
  pub buffered : All IsByte s.buf
  pub pending : IsPosition s.pending_abs

-- A sound session that has this in its buffer.
abbrev pub Sound : Bytes → Session → Type 0
Sound buf s = IsSound s × (s.buf ≡ buf)

payload_byte-IsByte :
    (payload : Bytes) (i : ℕ) → All IsByte payload → IsByte (payload_byte payload i)
payload_byte-IsByte [] i h = omega arith
payload_byte-IsByte (b ∷ bs) zero h = h.0
payload_byte-IsByte (b ∷ bs) (suc i) h = payload_byte-IsByte bs i h.1

u16_from_le-IsU16 : (a b : ℕ) → IsByte a → IsByte b → IsU16 (u16_from_le a b)
unfolding u16_from_le
u16_from_le-IsU16 a b ha hb = omega arith

-- A KEY_STATE message has six slots behind its modifier byte.
state_slots :
    (t : ℕ) (payload : Bytes)
    → (t == msg_key_state) ≡ true
    → expected_len t ≡ some (length payload)
    → length (take 6 (drop 1 payload)) ≡ 6
unfolding expected_len
state_slots t payload e sized =
    let seven : length payload ≡ 7 = ground arith in
    omega (arith, seven, length-take 6 (drop 1 payload), length-drop 1 payload)

module _ (accepts : List Report → Report → Bool) (delivers : List Bytes → Bytes → Bool) where
  with_hid :
      (s : Session) (hid : Hid) → IsSound s → IsValid hid → Sound s.buf (record s { hid = hid })
  with_hid s hid v h = (record { device = h; buffered = v.buffered; pending = v.pending }, refl)

  pub take_pending-Sound : (s : Session) → IsSound s → Sound s.buf (take_pending accepts delivers s)
  unfolding take_pending
  take_pending-Sound s v = elim (Option-cases s.pending_abs) [
    | inl e ↦ rw (e, flush_pending) (v, refl)
    | inr ((x, y), e) ↦
        let range : IsU16 x × IsU16 y = rw e at v.pending in
        rw (e, flush_pending)
          (
            record {
              device =
                  pointed-IsValid accepts v.device s.hid.buttons x y 0 v.device.three_buttons
                    range.0 range.1 (omega arith);
              buffered = v.buffered;
              pending = tt;
            },
            refl,
          )
  ]

  pending-IsSound :
      (s : Session) (payload : Bytes)
      → IsSound s
      → IsU16 (u16_from_le (payload_byte payload 0) (payload_byte payload 1))
      → IsU16 (u16_from_le (payload_byte payload 2) (payload_byte payload 3))
      → IsSound (record s {
        pending_abs = some (
          u16_from_le (payload_byte payload 0) (payload_byte payload 1),
          u16_from_le (payload_byte payload 2) (payload_byte payload 3),
        );
      })
  pending-IsSound s payload v hx hy = record {
    device = v.device;
    buffered = v.buffered;
    pending = (hx, hy);
  }

  send_to-Sound :
      (s : Session) (t : ℕ) (payload : Bytes)
      → IsSound s
      → Ensures (Sound s.buf) (send_to accepts delivers s t payload)
  unfolding send_to
  send_to-Sound s t payload v =
      let kept : Sound s.buf (record s { sent = s.sent ++ (encode t payload ∷ []) }) =
        (record { device = v.device; buffered = v.buffered; pending = v.pending }, refl) in
      if-cases (Ensures (Sound s.buf)) _ (λ _. runs kept) (λ _. fails kept)

  greet-Sound :
      (s : Session) (t : ℕ) (payload : Bytes)
      → IsSound s
      → Ensures (Sound s.buf) (greet accepts delivers s t payload)
  unfolding greet
  greet-Sound s t payload v =
      if-cases (Ensures (Sound s.buf)) (not (t == msg_hello)) (λ _. closes (v, refl))
        λ _.
          if-cases (Ensures (Sound s.buf))
            (not
              (u16_from_le (payload_byte payload 0) (payload_byte payload 1) == protocol_version))
            (λ _. closes (v, refl))
            λ _.
              send_to-Sound (record s { greeted = true }) msg_hello_ack (u16_to_le protocol_version)
                (record { device = v.device; buffered = v.buffered; pending = v.pending })

  dispatch-Sound :
      (s : Session) (t : ℕ) (payload : Bytes)
      → IsSound s
      → All IsByte payload
      → expected_len t ≡ some (length payload)
      → Ensures (Sound s.buf) (dispatch accepts delivers s t payload)
  unfolding dispatch
  dispatch-Sound s t payload v bytes sized =
      let P = Ensures (Sound s.buf) in
      let byte = λ (i : ℕ). payload_byte-IsByte payload i bytes in
      let word = λ (i j : ℕ). u16_from_le-IsU16 _ _ (byte i) (byte j) in
      if-cases P (t == msg_keepalive || t == msg_hello) (λ _. runs (v, refl))
        λ _.
          if-cases P (t == msg_key_down)
            (λ _. runs (with_hid s _ v (key_event-IsValid accepts v.device _ true (byte 0))))
            λ _.
              if-cases P (t == msg_key_up)
                (λ _. runs (with_hid s _ v (key_event-IsValid accepts v.device _ false (byte 0))))
                λ _.
                  if-cases P (t == msg_key_state)
                    (λ e. runs (
                      with_hid s _ v (
                        keyed-IsValid accepts v.device _ _ (byte 0) (state_slots t payload e sized)
                          (All-take IsByte 6 _ (All-drop IsByte 1 payload bytes)))))
                    λ _.
                      if-cases P (t == msg_pointer_abs)
                        (λ _. runs (pending-IsSound s payload v (word 0 1) (word 2 3), refl))
                        λ _.
                          if-cases P (t == msg_pointer_button)
                            (λ _. runs (
                              with_hid s _ v (
                                pointed-IsValid accepts v.device _ s.hid.x s.hid.y 0 (omega arith)
                                  v.device.x_range v.device.y_range (omega arith))))
                            λ _.
                              if-cases P (t == msg_pointer_wheel)
                                (λ _.
                                  runs (
                                    with_hid s _ v (flush_ptr-IsValid accepts v.device _ (byte 0))))
                                λ _.
                                  if-cases P (t == msg_release_all)
                                    (λ _.
                                      runs (with_hid s _ v (release_all-IsValid accepts v.device)))
                                    λ _.
                                      if-cases P (t == msg_get_status)
                                        (λ _.
                                          send_to-Sound s msg_status
                                            (s.hid.modifiers
                                              ∷ held_key_count s.hid
                                              ∷ s.hid.buttons
                                              ∷ (if s.hid.hid_ok then 1 else 0)
                                              ∷ [])
                                            v)
                                        λ _. runs (v, refl)

  pub handle_message-Sound :
      (s : Session) (t : ℕ) (payload : Bytes)
      → IsSound s
      → All IsByte payload
      → expected_len t ≡ some (length payload)
      → Ensures (Sound s.buf) (handle_message accepts delivers s t payload)
  unfolding handle_message
  handle_message-Sound s t payload v bytes sized =
      if-cases (Ensures (Sound s.buf)) (not s.greeted) (λ _. greet-Sound s t payload v)
        λ _.
          let (w, same) = flushed in
          Ensures-mono (λ z h. (h.0, h.1 ∙ same)) (dispatch-Sound _ t payload w bytes sized)
    where
      flushed : Sound s.buf (if needs_flush t then take_pending accepts delivers s else s)
      flushed =
          if-cases (Sound s.buf) (needs_flush t) (λ _. take_pending-Sound s v) (λ _. (v, refl))
