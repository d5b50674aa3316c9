-- ===== src/Helper/Reader/Acks.antt =====
-- The ACK frames for a transfer, and what the sender's window makes of them.
use mathlib.Core.Path.{subst}
use beaglewing.Clipboard.Agent.Acks.{counted, latest, stall-opens}
use beaglewing.Clipboard.Sending.{opens, polls, stall}
use beaglewing.Clipframe.Defs.{t_ack, t_start, t_data, t_end, ack_every, max_payload}
use beaglewing.Clipframe.Encode.{start_payload, next_seq}
use beaglewing.Clipframe.Encode.Frames.{transfer_frames, data_frames_from}
use beaglewing.Clipframe.Frame.{frame_bytes, ack_frame, parse_ack}
use beaglewing.Clipframe.Frame.Layout.{frame-eq_bytes, parse-frame_bytes, parse_ack-ack_frame}
use beaglewing.Common.Bytes.{Bytes, IsU16, u32_to_le}
use beaglewing.Common.Chunks.{chunks-All-length}
use beaglewing.Common.{
  ◌==◌, if◌then◌else◌, Bool-cases, ◌>>=◌, length, All, All-append, chunks, ℕ, suc, ◌+◌, ◌-◌, ◌%◌,
  ◌^◌, ◌≤◌, ◌<◌, ◌≡◌, refl, ap, ◌∙◌, inl, inr, true, false, none, some, List, [], ◌∷◌, arith,
}

abbrev pub ack_bytes : ℕ → Bytes
ack_bytes n = frame_bytes t_ack 0 (u32_to_le n)

-- The ACK frames for these chunks, `k` before them: one for each `ack_every` chunks.
unfoldable pub acks_from : ℕ → List Bytes → List Bytes
acks_from k [] = []
acks_from k (c ∷ cs) =
    let rest = acks_from (k + 1) cs in
    if (k + 1) % ack_every == 0 then ack_bytes (k + 1) ∷ rest else rest

pub ack_frame-eq : (n : ℕ) → ack_frame n ≡ some (ack_bytes n)
unfolding ack_frame
ack_frame-eq n = frame-eq_bytes t_ack 0 (u32_to_le n) (omega arith)

parse_ack-ack_bytes : (n : ℕ) → n < 2 ^ 32 → parse_ack (ack_bytes n) ≡ some n
parse_ack-ack_bytes n h =
    let (f, made, back) = parse_ack-ack_frame n h in
    let same : f ≡ ack_bytes n = cc (made, ack_frame-eq n) in
    subst (λ z. parse_ack z ≡ some n) same back

parse_ack-other :
    (t seq : ℕ) (payload : Bytes)
    → IsU16 seq
    → length payload ≤ max_payload
    → (t == t_ack) ≡ false
    → parse_ack (frame_bytes t seq payload) ≡ none
unfolding parse_ack
parse_ack-other t seq payload hs hp h =
    rw (parse-frame_bytes t seq payload hs hp, ◌>>=◌) (rw h refl)

abbrev pub IsNoAck : Bytes → Type 0
IsNoAck f = parse_ack f ≡ none

data_frames_from-IsNoAck :
    (cs : List Bytes) (seq : ℕ)
    → All (λ c. length c ≤ max_payload) cs
    → All IsNoAck (data_frames_from seq cs)
unfolding data_frames_from
data_frames_from-IsNoAck [] seq h = tt
data_frames_from-IsNoAck (c ∷ cs) seq (h, hs) = (
  parse_ack-other t_data (next_seq seq) c (omega arith) h refl,
  data_frames_from-IsNoAck cs (next_seq seq) hs,
)

pub transfer_frames-IsNoAck :
    (kind : ℕ) (content : Bytes) → All IsNoAck (transfer_frames kind content)
transfer_frames-IsNoAck kind content =
    let cs = chunks max_payload content in
    (
      parse_ack-other t_start 0 (start_payload kind content) (omega arith)
          (unfold start_payload in omega arith) refl,
      All-append IsNoAck (data_frames_from 0 cs) _
          (data_frames_from-IsNoAck cs 0 (chunks-All-length max_payload content))
          (
            parse_ack-other t_end _ (u32_to_le (length content % 2 ^ 32)) (omega arith)
                (omega arith) refl,
            tt,
          ),
    )

counted-due :
    (k : ℕ) (fs : List Bytes)
    → ((k + 1) % ack_every == 0) ≡ true
    → k + 1 < 2 ^ 32
    → counted (k - k % ack_every) (ack_bytes (k + 1) ∷ fs)
      ≡ counted (k + 1 - (k + 1) % ack_every) fs
unfolding counted
counted-due k fs due h =
    let all : k + 1 ≡ k + 1 - (k + 1) % ack_every = ground arith in
    ap (λ z. counted (latest z (k - k % ack_every)) fs) (parse_ack-ack_bytes (k + 1) h)
    ∙ ap (λ z. counted z fs) all

-- The newest of these ACKs counts all chunks but those since the last multiple.
counted-acks_from :
    (cs : List Bytes) (k : ℕ)
    → k + length cs < 2 ^ 32
    → counted (k - k % ack_every) (acks_from k cs) ≡ k + length cs - (k + length cs) % ack_every
unfolding acks_from
counted-acks_from [] k h = unfold counted in omega arith
counted-acks_from (c ∷ cs) k h =
    let ih = counted-acks_from cs (k + 1) (omega (arith, h)) in
    let regroup : k + 1 + length cs ≡ k + suc (length cs) = omega arith in
    let total = ih ∙ ap (λ z. z - z % ack_every) regroup in
    elim (Bool-cases ((k + 1) % ack_every == 0)) [
      | inl due ↦ rw due (counted-due k (acks_from (k + 1) cs) due (omega (arith, h)) ∙ total)
      | inr not_due ↦
          let same : k - k % ack_every ≡ k + 1 - (k + 1) % ack_every = ground arith in
          rw not_due (ap (λ z. counted z (acks_from (k + 1) cs)) same ∙ total)
    ]

-- Once the ACKs for the chunks that arrived are read, the sender's wait before the next DATA frame
-- opens at the first poll.
pub acks_from-opens :
    (cs : List Bytes) (elapsed : ℕ → ℕ)
    → length cs < 2 ^ 32
    → (counted 0 (acks_from 0 cs) ≤ length cs)
      × (stall polls
            (record { loads = λ k. counted 0 (acks_from 0 cs); elapsed = elapsed })
            0
            (length cs)
          ≡ opens)
acks_from-opens cs elapsed h =
    let total = counted-acks_from cs 0 (omega (arith, h)) in
    (
      omega (arith, total),
      stall-opens 2501 (record { loads = λ k. counted 0 (acks_from 0 cs); elapsed = elapsed }) 0
          (length cs) (omega (arith, total)),
    )
