-- ===== src/Bridge/Message/Parts.antt =====
-- What the frame at the front of the buffer consists of.
use beaglewing.Bridge.Defs.{max_payload}
use beaglewing.Bridge.Message.{
  Next, incomplete, malformed, message, next_frame, is_well_sized, expected_len, encode,
}
use beaglewing.Common.Bytes.{Bytes}
use mathlib.Core.Path.{subst}
use beaglewing.Common.{
  ltb, if-cases, Option-cases, length, take, length-append, length-take, take-append-drop,
  take-length-append, drop-length-append, ℕ, ◌%◌, ◌≤◌, ◌≡◌, inl, inr, true, false, not, some, [],
  ◌∷◌, ◌++◌, arith,
}

-- A message that is taken from the buffer: its header and payload were the front of the buffer,
-- and its payload has the length that its type prescribes.
pub record IsTaken (buf : Bytes) (t : ℕ) (payload rest : Bytes) : Type 0 where
  pub splits : buf ≡ t ∷ length payload ∷ (payload ++ rest)
  pub sized : expected_len t ≡ some (length payload)

is_well_sized-expected : (t len : ℕ) → is_well_sized t len ≡ true → expected_len t ≡ some len
unfolding is_well_sized
is_well_sized-expected t len h = elim (Option-cases (expected_len t)) [
  | inl bad ↦ absurd (ground arith)
  | inr (want, e) ↦ ground arith
]

abbrev Taken : Bytes → Next → Type 0
Taken buf (message t payload rest) = IsTaken buf t payload rest
Taken buf incomplete = Unit
Taken buf malformed = Unit

next_frame-Taken : (buf : Bytes) → Taken buf (next_frame buf)
unfolding next_frame
next_frame-Taken (t ∷ len ∷ more) =
    if-cases (Taken (t ∷ len ∷ more)) (not (is_well_sized t len)) (λ _. tt)
      λ sized.
        if-cases (Taken (t ∷ len ∷ more)) (ltb (length more) len) (λ _. tt)
          λ enough.
            let exact : length (take len more) ≡ len = ground (arith, length-take len more) in
            record {
              splits = rw (exact, take-append-drop len more);
              sized = rw exact (is_well_sized-expected t len (ground arith));
            }
next_frame-Taken (t ∷ []) = tt
next_frame-Taken [] = tt

-- Where the bridge takes a message from its buffer, the buffer was the message's header and payload
-- followed by what is left, and the payload has the length that the type prescribes.
pub next_frame-IsTaken :
    (buf : Bytes) {t : ℕ} {payload rest : Bytes}
    → next_frame buf ≡ message t payload rest
    → IsTaken buf t payload rest
next_frame-IsTaken buf e = subst (Taken buf) e (next_frame-Taken buf)

expected-is_well_sized :
    (t len : ℕ) → expected_len t ≡ some len → len ≤ max_payload → is_well_sized t len ≡ true
unfolding is_well_sized
expected-is_well_sized t len e h = rw (e, is_well_sized) (ground arith)

-- A frame at the front of the buffer whose payload has the right length is taken from it whole.
pub next_frame-encode :
    (t : ℕ) (payload rest : Bytes)
    → expected_len t ≡ some (length payload)
    → length payload ≤ max_payload
    → next_frame (encode t payload ++ rest) ≡ message t payload rest
unfolding next_frame
next_frame-encode t payload rest e h =
    let small : length payload % 256 ≡ length payload = omega arith in
    let enough : ltb (length (payload ++ rest)) (length payload) ≡ false =
      ground (arith, length-append payload rest) in
    rw (small, expected-is_well_sized t (length payload) e h, enough)
      (rw (take-length-append payload rest, drop-length-append payload rest))
