-- ===== src/Clipframe/Reassembler/Requests.antt =====
-- What the receiver makes of the OFFER and PULL frames.
use beaglewing.Clipframe.Defs.{t_offer, t_pull}
use beaglewing.Clipframe.Frame.{Offer, offer_payload, offer_frame, pull_frame, u32_payload}
use beaglewing.Clipframe.Frame.Layout.{parse-frame}
use beaglewing.Clipframe.Reassembler.{offer, pull, Reassembler, feed, feed_parsed}
use beaglewing.Common.Bytes.{Bytes, IsU16, IsU32, u32_to_le, u16_from_le-to_le, u32_from_le-to_le}
use beaglewing.Common.{ℕ, ◌≡◌, refl, some, arith}

-- A receiver that gets the OFFER frame of an offer whose numbers fit their fields reports this
-- offer, whatever it is doing, and goes on with it.
pub feed-offer_frame :
    (r : Reassembler) (o : Offer)
    → IsU32 o.total
    → IsU16 o.items
    → IsU32 o.id
    → (f : Bytes) × (offer_frame o ≡ some f) × (feed r f ≡ (r, offer o))
unfolding offer_frame offer_payload feed feed_parsed
feed-offer_frame r o ht hi hd =
    let (f, made, _, back) = parse-frame t_offer 0 (offer_payload o) (omega arith) (omega arith) in
    (
      f,
      made,
      rw (back, feed)
          (rw
            (u32_from_le-to_le o.total ht, u16_from_le-to_le o.items hi, u32_from_le-to_le o.id hd)
            refl),
    )

-- A receiver that gets the PULL frame of a 32-bit id reports this id, whatever it is doing, and
-- goes on with it.
pub feed-pull_frame :
    (r : Reassembler) (id : ℕ)
    → IsU32 id
    → (f : Bytes) × (pull_frame id ≡ some f) × (feed r f ≡ (r, pull id))
unfolding pull_frame feed feed_parsed u32_payload
feed-pull_frame r id h =
    let (f, made, _, back) = parse-frame t_pull 0 (u32_to_le id) (omega arith) (omega arith) in
    (f, made, rw (back, feed) (rw (u32_from_le-to_le id h) refl))
