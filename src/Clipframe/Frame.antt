-- ===== src/Clipframe/Frame.antt =====
-- protocol/clipframe/src/lib.rs: `frame`, `parse`, and the OFFER, PULL and ACK frames.
-- A frame is a list of `frame_len` bytes. `none` is the panic of the assertion in `frame`,
-- and in `parse` the source's `None`.
pub mod Layout
use beaglewing.Clipframe.Defs.{max_payload, t_ack, t_offer, t_pull}
use beaglewing.Common.{
  ℕ, ◌-◌, ◌%◌, ◌^◌, [], ◌∷◌, ◌++◌, Option, none, some, length, take, replicate, leb, ◌==◌,
  if◌then◌else◌, ◌>>=◌,
}
use beaglewing.Common.Bytes.{Bytes, u16_to_le, u32_to_le, u16_from_le, u32_from_le}

-- The bytes that `frame` writes: the header, the payload, and zeros up to the frame's length.
unfoldable pub frame_bytes : ℕ → ℕ → Bytes → Bytes
frame_bytes t seq payload =
    t
    ∷ 0
    ∷ (u16_to_le seq
        ++ (u16_to_le (length payload % 2 ^ 16)
            ++ (payload ++ replicate (max_payload - length payload) 0)))

unfoldable pub frame : ℕ → ℕ → Bytes → Option Bytes
frame t seq payload =
    if leb (length payload) max_payload then some (frame_bytes t seq payload) else none

pub record Parsed : Type 0 where
  pub t : ℕ
  pub seq : ℕ
  pub payload : Bytes

-- The six header bytes are matched; a shorter list is no frame.
unfoldable pub parse : Bytes → Option Parsed
parse (t ∷ flags ∷ s0 ∷ s1 ∷ l0 ∷ l1 ∷ body) =
    let len = u16_from_le l0 l1 in
    if leb len max_payload
    then some (record { t = t; seq = u16_from_le s0 s1; payload = take len body })
    else none
parse _ = none

pub record Offer : Type 0 where
  pub kind : ℕ
  pub total : ℕ
  pub items : ℕ
  pub id : ℕ

unfoldable pub offer_payload : Offer → Bytes
offer_payload o = o.kind ∷ (u32_to_le o.total ++ (u16_to_le o.items ++ u32_to_le o.id))

unfoldable pub offer_frame : Offer → Option Bytes
offer_frame o = frame t_offer 0 (offer_payload o)

unfoldable pub pull_frame : ℕ → Option Bytes
pull_frame id = frame t_pull 0 (u32_to_le id)

unfoldable pub ack_frame : ℕ → Option Bytes
ack_frame count = frame t_ack 0 (u32_to_le count)

-- `u32::from_le_bytes` of a payload that must have four bytes
unfoldable pub u32_payload : Bytes → Option ℕ
u32_payload (a ∷ b ∷ c ∷ d ∷ []) = some (u32_from_le a b c d)
u32_payload _ = none

unfoldable pub parse_ack : Bytes → Option ℕ
unfolding u32_payload
parse_ack f = do p ← parse f; if p.t == t_ack then u32_payload p.payload else none
