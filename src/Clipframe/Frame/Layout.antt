-- ===== src/Clipframe/Frame/Layout.antt =====
-- What `parse` reads back from the bytes that `frame` writes.
use beaglewing.Clipframe.Defs.{frame_len, max_payload}
use beaglewing.Clipframe.Frame.{frame_bytes, frame, Parsed, parse, ack_frame, parse_ack}
use beaglewing.Common.{
  ◌∷◌, ℕ, ◌-◌, ◌%◌, ◌^◌, ◌≤◌, ◌≡◌, ap, some, length, replicate, leb_iff, length-append,
  length-replicate, length-take, take-length-append, arith,
}
use beaglewing.Common.Bytes.{
  Bytes, u16_from_le, IsU16, IsU32, u32_to_le, u16_from_le-to_le, u32_from_le-to_le,
}

pub frame-eq_bytes :
    (t seq : ℕ) (payload : Bytes)
    → length payload ≤ max_payload
    → frame t seq payload ≡ some (frame_bytes t seq payload)
unfolding frame
frame-eq_bytes t seq payload h = rw ((leb_iff _ _).1 h)

pub length-frame_bytes :
    (t seq : ℕ) (payload : Bytes)
    → length payload ≤ max_payload
    → length (frame_bytes t seq payload) ≡ frame_len
unfolding frame_bytes
length-frame_bytes t seq payload h =
    rw (length-append payload (replicate (max_payload - length payload) 0), length-replicate)
      (omega arith)

pub parse-frame_bytes :
    (t seq : ℕ) (payload : Bytes)
    → IsU16 seq
    → length payload ≤ max_payload
    → parse (frame_bytes t seq payload) ≡ some (record { t = t; seq = seq; payload = payload })
unfolding parse frame_bytes
parse-frame_bytes t seq payload hs hp = rw (
  u16_from_le-to_le seq hs,
  u16_from_le-to_le (length payload % 2 ^ 16) (omega arith),
  small,
  (leb_iff _ _).1 hp,
  take-length-append payload _,
)
  where
    small : length payload % 2 ^ 16 ≡ length payload
    small = omega arith

-- A frame whose number is a u16 and whose payload is no longer than `max_payload` is made, has
-- `frame_len` bytes, and `parse` reads back its type, its number and its payload.
pub parse-frame :
    (t seq : ℕ) (payload : Bytes)
    → IsU16 seq
    → length payload ≤ max_payload
    → (f : Bytes) × (frame t seq payload ≡ some f)
      × (length f ≡ frame_len)
      × (parse f ≡ some (record { t = t; seq = seq; payload = payload }))
parse-frame t seq payload hs hp = (
  frame_bytes t seq payload,
  frame-eq_bytes t seq payload hp,
  length-frame_bytes t seq payload hp,
  parse-frame_bytes t seq payload hs hp,
)

-- The receiver of an ACK frame reads the 32-bit count that the sender of the ACK put there.
pub parse_ack-ack_frame :
    (count : ℕ)
    → IsU32 count
    → (f : Bytes) × (ack_frame count ≡ some f) × (parse_ack f ≡ some count)
unfolding ack_frame parse_ack
parse_ack-ack_frame count h =
    let (f, made, _, back) = parse-frame _ 0 (u32_to_le count) (omega arith) (omega arith) in
    (f, made, rw back (ap some (u32_from_le-to_le count h)))

-- A payload that `parse` returns is no longer than a frame allows.
pub length-parse-payload-le :
    (raw : Bytes) {p : Parsed} → parse raw ≡ some p → length p.payload ≤ max_payload
unfolding parse
length-parse-payload-le (t ∷ fl ∷ s0 ∷ s1 ∷ l0 ∷ l1 ∷ body) e =
    ground (arith, length-take (u16_from_le l0 l1) body)
length-parse-payload-le _ e = absurd (cc)
