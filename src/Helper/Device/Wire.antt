-- ===== src/Helper/Device/Wire.antt =====
-- The helper's sender against that of the agent on the desktop.
use beaglewing.Clipboard.Sending as Linux
use beaglewing.Clipboard.Sending.{
  Wait, Window, opens, gives_up, spins, polls, stall, Sent, done, stalled, lost, stuck, abort_frame,
}
use beaglewing.Common.Bytes.{Bytes}
use beaglewing.Helper.Device.{
  send_frames, first, second, Device, hid_send, proceed, send_from, attempt, send_on,
}
use beaglewing.Common.{
  ltb, if◌then◌else◌, Bool-cases, if-cases, length, ℕ, suc, ◌+◌, ◌-◌, ◌%◌, ◌^◌, ◌<◌, ◌≡◌, refl, ap,
  ◌∙◌, ◌≢◌, inl, inr, Bool, true, false, ◌&&◌, List, [], ◌∷◌, ◌++◌, arith,
}

-- The result, and the frames on the wire.
abbrev pub on_wire {ℓ} : {A : Type ℓ} → A × Device → A × List Bytes
on_wire (x, d) = (x, d.written)

module _ (takes : List Bytes → Bytes → Bool) where
  pub hid_send-opened :
      (f : Bytes) (d : Device)
      → d.opened ≡ true
      → hid_send takes f d ≡ (
        record { opened = takes d.written f; written = d.written ++ (f ∷ []) },
        takes d.written f,
      )
  unfolding hid_send send_on
  hid_send-opened f d h = rw (h, send_on) refl

  proceed-on_wire :
      (x : Sent × Device) (y : Sent × List Bytes) (w : Window) (d : Device)
      → d.opened ≡ true
      → on_wire x ≡ y
      → on_wire (proceed takes w x d) ≡ Linux.proceed w y d.written
  unfolding proceed Linux.proceed
  proceed-on_wire x y opens d h e = e
  proceed-on_wire x y gives_up d h e = rw (hid_send-opened abort_frame d h) refl
  proceed-on_wire x y spins d h e = refl

  if-on_wire :
      (x y : Sent × Device) {u v : Sent × List Bytes} (b : Bool)
      → on_wire x ≡ u
      → on_wire y ≡ v
      → on_wire (if b then x else y) ≡ (if b then u else v)
  if-on_wire x y true e f = e
  if-on_wire x y false e f = f

  module _ (waits : ℕ → Wait) (last : ℕ) where
    send_from-on_wire :
        (i n : ℕ) (d : Device) (fs : List Bytes)
        → d.opened ≡ true
        → on_wire (send_from takes waits last i n d fs)
          ≡ Linux.send_from takes waits last i n d.written fs
    unfolding send_from Linux.send_from
    send_from-on_wire i n d [] h = refl
    send_from-on_wire i n d (f ∷ fs) h =
        let after = d.written ++ (f ∷ []) in
        let write : (m : ℕ)
            → on_wire (
                if (hid_send takes f d).1
                then send_from takes waits last (suc i) m (hid_send takes f d).0 fs
                else (lost, (hid_send takes f d).0))
              ≡ (if takes d.written f
                  then Linux.send_from takes waits last (suc i) m after fs
                  else (lost, after)) =
          (λ m. elim (Bool-cases (takes d.written f)) [
            | inl ok ↦
                rw (hid_send-opened f d h, ok)
                  (send_from-on_wire (suc i) m (record { opened = true; written = after }) fs refl)
            | inr bad ↦ rw (hid_send-opened f d h, bad) refl
          ]) in
        if-on_wire _ _ (ltb 0 i && ltb i last)
          (proceed-on_wire _ _ (stall polls (waits i) 0 n) d h (write ((n + 1) % 2 ^ 32))) (write n)

  pub attempt-on_wire :
      (waits : ℕ → Wait) (d : Device) (frames : List Bytes)
      → d.opened ≡ true
      → on_wire (attempt takes waits d frames) ≡ Linux.send_transfer takes waits d.written frames
  unfolding attempt Linux.send_transfer
  attempt-on_wire waits d frames h = send_from-on_wire waits (length frames - 1) 0 0 d frames h

  second-on_wire :
      (x : Sent) (d : Device) → on_wire (second takes (x, d)) ≡ Linux.second takes (x, d.written)
  unfolding second Linux.second
  second-on_wire done d = refl
  second-on_wire stalled d = refl
  second-on_wire lost d = refl
  second-on_wire stuck d = refl

  pub first-on_wire :
      (again : ℕ → Wait) (frames : List Bytes) (x : Sent) (d : Device)
      → (x ≡ stalled → d.opened ≡ true)
      → on_wire (first takes again frames (x, d)) ≡ Linux.first takes again frames (x, d.written)
  unfolding first Linux.first
  first-on_wire again frames done d h = refl
  first-on_wire again frames lost d h = refl
  first-on_wire again frames stuck d h = refl
  first-on_wire again frames stalled d h =
      second-on_wire (attempt takes again d frames).0 (attempt takes again d frames).1
      ∙ ap (Linux.second takes) (attempt-on_wire again d frames (h refl))

  -- On a closed device no frame is written.
  pub attempt-closed :
      (waits : ℕ → Wait) (d : Device) (frames : List Bytes)
      → 0 < length frames
      → d.opened ≡ false
      → attempt takes waits d frames ≡ (lost, d)
  unfolding attempt send_from hid_send send_on
  attempt-closed waits d [] n h = absurd (omega arith)
  attempt-closed waits d (f ∷ fs) n h = rw (h, send_on) refl

  -- The device is open unless a frame of the content was lost.
  abbrev KeepsOpen : Sent × Device → Type 0
  KeepsOpen o = o.0 ≢ lost → o.1.opened ≡ true

  module _ (taken : (written : List Bytes) → takes written abort_frame ≡ true) (waits : ℕ → Wait)
      (last : ℕ) where
    proceed-KeepsOpen :
        (x : Sent × Device) (w : Window) (d : Device)
        → d.opened ≡ true
        → KeepsOpen x
        → KeepsOpen (proceed takes w x d)
    unfolding proceed
    proceed-KeepsOpen x opens d h k = k
    proceed-KeepsOpen x gives_up d h k = λ z. rw (hid_send-opened abort_frame d h) (taken d.written)
    proceed-KeepsOpen x spins d h k = λ z. h

    send_from-KeepsOpen :
        (i n : ℕ) (d : Device) (fs : List Bytes)
        → d.opened ≡ true
        → KeepsOpen (send_from takes waits last i n d fs)
    unfolding send_from
    send_from-KeepsOpen i n d [] h = λ z. h
    send_from-KeepsOpen i n d (f ∷ fs) h =
        let write : (m : ℕ)
            → KeepsOpen (
                if (hid_send takes f d).1
                then send_from takes waits last (suc i) m (hid_send takes f d).0 fs
                else (lost, (hid_send takes f d).0)) =
          (λ m. elim (Bool-cases (takes d.written f)) [
            | inl ok ↦
                rw (hid_send-opened f d h, ok)
                  (send_from-KeepsOpen (suc i) m
                    (record { opened = true; written = d.written ++ (f ∷ []) }) fs refl)
            | inr bad ↦ rw (hid_send-opened f d h, bad) (λ z. absurd (z refl))
          ]) in
        if-cases KeepsOpen (ltb 0 i && ltb i last)
          (λ _. proceed-KeepsOpen _ (stall polls (waits i) 0 n) d h (write ((n + 1) % 2 ^ 32)))
          (λ _. write n)

  -- On a device whose ABORT frames are not lost, the sender writes the same frames as that of the
  -- agent on the desktop does on a connection that behaves the same, and ends in the same way, for
  -- any frames and waits.
  pub send_frames-eq_first :
      (waits again : ℕ → Wait) (frames : List Bytes) (d : Device)
      → d.opened ≡ true
      → ((written : List Bytes) → takes written abort_frame ≡ true)
      → on_wire (send_frames takes waits again frames d)
        ≡ Linux.first takes again frames (Linux.send_transfer takes waits d.written frames)
  unfolding send_frames attempt
  send_frames-eq_first waits again frames d h k =
      first-on_wire again frames (attempt takes waits d frames).0 (attempt takes waits d frames).1
        (λ e. send_from-KeepsOpen k waits (length frames - 1) 0 0 d frames h (λ z. cc))
      ∙ ap (Linux.first takes again frames) (attempt-on_wire waits d frames h)
