-- ===== src/Clipboard/Session/Offers.antt =====
-- A copy of files writes an offer alone, and the other side's files are asked for once.
use beaglewing.Clipboard.Agent.{
  write, changed, to_local, RemoteOffer, stepped, Agent, asked, Outside, stays, leaves,
}
use beaglewing.Clipframe.Reassembler.Requests.{feed-offer_frame}
use beaglewing.Clipboard.Session.{offer_batch, on_changed, on_files, request, on_event, on_asked}
use beaglewing.Clipboard.Text.{offer_id, parse_file_list}
use beaglewing.Clipframe.Frame.{Offer, offer_frame, pull_frame}
use beaglewing.Clipframe.Defs.{kind_tar}
use beaglewing.Clipframe.Reassembler.{offer, feed, Reassembler}
use beaglewing.Common.Xor.{bit_xor-lt}
use mathlib.Core.Path.{subst}
use beaglewing.Common.Bytes.{Bytes, IsU32}
use beaglewing.Common.{
  ◌==◌, if◌then◌else◌, Bool-cases, length, ℕ, ◌-◌, ◌/◌, ◌%◌, ◌^◌, ◌<◌, min, ◌≡◌, refl, sym, ap, ◌∙◌,
  ◌≢◌, inl, inr, Bool, true, false, ◌||◌, Option, none, some, List, [], ◌∷◌, ◌++◌, arith,
}

pub offer_id-IsU32 : (h : ℕ) → h < 2 ^ 64 → IsU32 (offer_id h)
unfolding offer_id
offer_id-IsU32 h k = bit_xor-lt 32 (h % 2 ^ 32) (h / 2 ^ 32) (omega arith) (omega arith)

module _ (takes : List Bytes → Bytes → Bool) (trim lossy : Bytes → Bytes) (w : Outside) where
  offer_batch-eq :
      (a : Agent) (paths : List Bytes) (h sig total : ℕ) (f : Bytes)
      → offer_frame (record {
        kind = kind_tar;
        total = min total (2 ^ 32 - 1);
        items = min (length paths) (2 ^ 16 - 1);
        id = offer_id h;
      })
        ≡ some f
      → offer_batch takes trim lossy (some (sig, total)) paths h a ≡ (
          if takes a.written f
          then stays (record a {
            local_offer = some (record { id = offer_id h; paths = paths });
            last_sent = h;
            written = a.written ++ (f ∷ []);
          })
          else leaves (record a { written = a.written ++ (f ∷ []) }))
  unfolding offer_batch write
  offer_batch-eq a paths h sig total f e = elim (Bool-cases (takes a.written f)) [
    | inl ok ↦ rw (e, ok) refl
    | inr bad ↦ rw (e, bad) refl
  ]

  -- When files are copied that the agent has not just sent or set itself, and their batch can be
  -- read, a single frame is written: a receiver takes it for an offer of files, and the agent keeps
  -- the paths with the id of this offer. If the write fails, the agent reconnects instead.
  pub on_event-offer :
      (a : Agent) (content : Bytes) (h sig total : ℕ) (r : Reassembler)
      → h < 2 ^ 64
      → h ≢ a.last_sent
      → h ≢ a.last_set
      → w.batch_signature (parse_file_list trim lossy content) ≡ some (sig, total)
      → (f : Bytes) × (what : Offer) × (feed r f ≡ (r, offer what))
        × (what.kind ≡ kind_tar)
        × (on_event takes trim lossy w (changed kind_tar content h) a ≡ (
            if takes a.written f
            then stays (record a {
              local_offer =
                  some (record { id = what.id; paths = parse_file_list trim lossy content });
              last_sent = h;
              written = a.written ++ (f ∷ []);
            })
            else leaves (record a { written = a.written ++ (f ∷ []) })))
  unfolding on_event on_changed on_files
  on_event-offer a content h sig total r small new_sent new_set batch =
      let paths = parse_file_list trim lossy content in
      let what : Offer = record {
        kind = kind_tar;
        total = min total (2 ^ 32 - 1);
        items = min (length paths) (2 ^ 16 - 1);
        id = offer_id h;
      } in
      let (f, made, fed) =
        feed-offer_frame r what (omega arith) (omega arith) (offer_id-IsU32 h small) in
      let fresh : (h == a.last_sent || h == a.last_set) ≡ false = ground arith in
      (
        f,
        what,
        fed,
        refl,
        rw fresh (
            ap (λ z. offer_batch takes trim lossy z paths h a) batch
            ∙ offer_batch-eq a paths h sig total f made),
      )

  stepped-remote_offer :
      (m : Option Bytes) (c b : Agent)
      → stepped takes trim lossy (write takes trim lossy m c) ≡ stays b
      → b.remote_offer ≡ c.remote_offer
  unfolding write
  stepped-remote_offer none c b e = absurd (cc)
  stepped-remote_offer (some f) c b e = elim (Bool-cases (takes c.written f)) [
    | inl ok ↦
        let same : record c { written = c.written ++ (f ∷ []) } ≡ b = cc (rw ok at e) in
        ap (λ z. z.remote_offer) (sym same)
    | inr bad ↦ absurd (cc (rw bad at e))
  ]

  request-twice :
      (ro : Option RemoteOffer) (a b : Agent)
      → a.remote_offer ≡ ro
      → request takes trim lossy false ro a ≡ stays b
      → request takes trim lossy false b.remote_offer b ≡ stays b
  unfolding request
  request-twice none a b h e =
      let same : a ≡ b = cc in
      subst (λ z. request takes trim lossy false z.remote_offer z ≡ stays z) same
        (rw (h, request) refl)
  request-twice (some ro) a b h e = elim (Bool-cases ro.requested) [
    | inl was ↦
        let same : a ≡ b = cc (rw was at e) in
        subst (λ z. request takes trim lossy false z.remote_offer z ≡ stays z) same
          (rw (h, request) (rw was refl))
    | inr new ↦
        let k : b.remote_offer ≡ some (record ro { requested = true }) =
          stepped-remote_offer (pull_frame ro.what.id)
            (record a { remote_offer = some (record ro { requested = true }) }) b (rw new at e) in
        rw (k, request) refl
  ]

  -- Crossing back asks for the other machine's files once: as long as no other offer comes, doing
  -- it again writes nothing.
  pub on_event-crossing_twice :
      (a b : Agent)
      → on_event takes trim lossy w (asked to_local) a ≡ stays b
      → on_event takes trim lossy w (asked to_local) b ≡ stays b
  unfolding on_event on_asked request
  on_event-crossing_twice a b e = request-twice a.remote_offer a b refl e
