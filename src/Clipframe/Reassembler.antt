-- ===== src/Clipframe/Reassembler.antt =====
-- protocol/clipframe/src/lib.rs: the receiving state machine `Reassembler`.
pub mod RoundTrip
pub mod Transition
pub mod Sound
pub mod Requests
pub mod Refused
use beaglewing.Clipframe.Defs.{
  t_ping, t_pong, t_start, t_data, t_end, t_abort, t_ack, t_offer, t_pull, max_transfer,
}
use beaglewing.Clipframe.Encode.{next_seq}
use beaglewing.Clipframe.Frame.{parse, Offer, u32_payload}
use beaglewing.Common.{
  ℕ, ◌+◌, ◌%◌, ◌^◌, List, [], ◌∷◌, ◌++◌, Option, none, some, not, length, ltb, ◌==◌, ◌||◌,
  if◌then◌else◌,
}
use beaglewing.Common.Bytes.{Bytes, u16_from_le, u32_from_le}

-- The messages of `FeedResult::Error`.
pub data FeedError : Type 0 where
  unparseable bad_offer bad_pull bad_start too_large data_without_start : FeedError
  sequence_gap overrun end_without_start gap_at_end length_mismatch unknown_type : FeedError

-- `nothing` is the source's `FeedResult::None`.
pub data FeedResult : Type 0 where
  nothing ping : FeedResult
  progress : ℕ → FeedResult
  complete : ℕ → Bytes → FeedResult
  offer : Offer → FeedResult
  pull : ℕ → FeedResult
  error : FeedError → FeedResult

-- The tuple (kind, total, last_seq, data) of a transfer in progress.
pub record Active : Type 0 where
  pub kind : ℕ
  pub total : ℕ
  pub last_seq : ℕ
  pub content : Bytes

pub record Reassembler : Type 0 where
  pub active : Option Active
  pub data_frames : ℕ

-- `Reassembler::default()`
abbrev pub fresh : Reassembler
fresh = record { active = none; data_frames = 0 }

-- (bytes received, total bytes) of the transfer in progress, if any
unfoldable pub status : Reassembler → Option (ℕ × ℕ)
status r = elim r.active [ none ↦ none | some a ↦ some (length a.content, a.total) ]

abbrev idle : Reassembler → Reassembler
idle r = record r { active = none }

feed_offer : Reassembler → Bytes → Reassembler × FeedResult
feed_offer r (b0 ∷ b1 ∷ b2 ∷ b3 ∷ b4 ∷ b5 ∷ b6 ∷ b7 ∷ b8 ∷ b9 ∷ b10 ∷ []) = (
  r,
  offer (record {
    kind = b0;
    total = u32_from_le b1 b2 b3 b4;
    items = u16_from_le b5 b6;
    id = u32_from_le b7 b8 b9 b10;
  }),
)
feed_offer r _ = (r, error bad_offer)

feed_pull : Reassembler → Option ℕ → Reassembler × FeedResult
feed_pull r none = (r, error bad_pull)
feed_pull r (some id) = (r, pull id)

feed_start : Reassembler → ℕ → Bytes → Reassembler × FeedResult
feed_start r seq (kind ∷ b1 ∷ b2 ∷ b3 ∷ b4 ∷ []) =
    let total = u32_from_le b1 b2 b3 b4 in
    if ltb max_transfer total then (idle r, error too_large) else (
      record {
        active = some (record { kind = kind; total = total; last_seq = seq; content = [] });
        data_frames = 0;
      },
      nothing,
    )
feed_start r seq _ = (r, error bad_start)

feed_data : Reassembler → Option Active → ℕ → Bytes → Reassembler × FeedResult
feed_data r none seq payload = (r, error data_without_start)
feed_data r (some a) seq payload =
    let content = a.content ++ payload in
    if not (seq == next_seq a.last_seq)
    then (idle r, error sequence_gap)
    else if ltb a.total (length content % 2 ^ 32)
    then (idle r, error overrun)
    else (
      record {
        active = some (record a { last_seq = seq; content = content });
        data_frames = (r.data_frames + 1) % 2 ^ 32;
      },
      progress ((r.data_frames + 1) % 2 ^ 32),
    )

-- `self.active.take()` leaves no transfer on any branch.
feed_end : Reassembler → Option Active → ℕ → Option ℕ → Reassembler × FeedResult
feed_end r none seq announced = (idle r, error end_without_start)
feed_end r (some a) seq none =
    (idle r, error (if not (seq == next_seq a.last_seq) then gap_at_end else length_mismatch))
feed_end r (some a) seq (some n) =
    if not (seq == next_seq a.last_seq)
    then (idle r, error gap_at_end)
    else if not (n == a.total) || not (length a.content % 2 ^ 32 == a.total)
    then (idle r, error length_mismatch)
    else (idle r, complete a.kind a.content)

-- The match on the frame's type.
unfoldable pub feed_parsed : Reassembler → ℕ → ℕ → Bytes → Reassembler × FeedResult
unfolding feed_offer feed_pull feed_start feed_data feed_end
feed_parsed r t seq payload =
    if t == t_ping
    then (r, ping)
    else if t == t_pong
    then (r, nothing)
    else if t == t_abort
    then (idle r, nothing)
    else if t == t_ack
    then (r, nothing)
    else if t == t_offer
    then feed_offer r payload
    else if t == t_pull
    then feed_pull r (u32_payload payload)
    else if t == t_start
    then feed_start r seq payload
    else if t == t_data
    then feed_data r r.active seq payload
    else if t == t_end
    then feed_end r r.active seq (u32_payload payload)
    else (r, error unknown_type)

unfoldable pub feed : Reassembler → Bytes → Reassembler × FeedResult
unfolding feed_parsed
feed r raw = elim (parse raw) [
  | none ↦ (r, error unparseable)
  | some p ↦ feed_parsed r p.t p.seq p.payload
]

-- Feed frames in order; the results are kept in order.
unfoldable pub feed_all : Reassembler → List Bytes → Reassembler × List FeedResult
feed_all r [] = (r, [])
feed_all r (f ∷ fs) = let (r', x) = feed r f in let (last, xs) = feed_all r' fs in (last, x ∷ xs)
