-- ===== src/Helper/Loop/Offers.antt =====
-- A copy of files makes the helper write an offer alone.
use beaglewing.Clipboard.Session.Offers.{offer_id-IsU32}
use beaglewing.Clipboard.Text.{offer_id, lines}
use beaglewing.Clipboard.Text.Plain.{IsPlain, lines-end, lines-line}
use beaglewing.Clipboard.Watcher.{Found}
use beaglewing.Clipframe.Defs.{kind_tar}
use beaglewing.Clipframe.Frame.{Offer, offer_frame}
use beaglewing.Clipframe.Reassembler.{offer, Reassembler, feed}
use beaglewing.Clipframe.Reassembler.Requests.{feed-offer_frame}
use beaglewing.Common.Xor.{bit_xor-lt}
use beaglewing.Common.Bytes.{Bytes}
use beaglewing.Helper.Content.Reads.{get_clipboard_content-files}
use beaglewing.Helper.Content.{join, get_clipboard_content}
use beaglewing.Helper.Defs.{Helper}
use beaglewing.Helper.Device.{Device, ensure_open}
use beaglewing.Helper.Device.Wire.{hid_send-opened}
use beaglewing.Helper.Loop.{
  Round, on_pull, offer_batch, offer_of, on_content, on_clipboard, send_round, number,
}
use beaglewing.Common.{
  ◌==◌, if◌then◌else◌, Bool-cases, ◌>>=◌, length, All, ℕ, ◌^◌, ◌<◌, bit_xor, ◌≡◌, refl, ap, ◌∙◌,
  ◌≢◌, inl, inr, Bool, true, false, ◌||◌, none, some, List, [], ◌∷◌, ◌++◌, arith,
}

-- A path is not empty and holds no line ends.
abbrev pub IsPath : Bytes → Type 0
IsPath p = All IsPlain p × (0 < length p)

lines-nonempty : (p : Bytes) → IsPath p → lines p ≡ p ∷ []
lines-nonempty [] h = absurd (omega (arith, h))
lines-nonempty (b ∷ bs) h = lines-end b bs h.0

pub lines-join :
    (p : Bytes) (ps : List Bytes) → All IsPath (p ∷ ps) → lines (join (p ∷ ps)) ≡ p ∷ ps
unfolding join
lines-join p [] (h, _) = lines-nonempty p h
lines-join p (q ∷ ps) (h, hs) =
    lines-line p (join (q ∷ ps)) h.0 ∙ ap (λ z. p ∷ z) (lines-join q ps hs)

module _ (takes : List Bytes → Bytes → Bool) (lossy : Bytes → Bytes) (w : Round) where
  -- The state after an offer of these paths with this id in the frame `f`.
  abbrev pub after_offer : Bytes → ℕ → List Bytes → ℕ → Helper → Helper
  after_offer f id paths hash s =
      let d : Device = record {
        opened = takes s.dev.written f;
        written = s.dev.written ++ (f ∷ []);
      } in
      if takes s.dev.written f
      then record s {
        dev = d;
        local_offer = some (record { id = id; paths = paths });
        last_sent = hash;
      }
      else record s { dev = d }

  offer_batch-eq :
      (s : Helper) (paths : List Bytes) (hash sig total : ℕ) (f : Bytes)
      → offer_frame (offer_of takes lossy w total paths hash) ≡ some f
      → s.dev.opened ≡ true
      → offer_batch takes lossy w (some (sig, total)) paths hash s
        ≡ some (after_offer f (offer_id hash) paths hash s)
  unfolding offer_batch
  offer_batch-eq s paths hash sig total f e h = elim (Bool-cases (takes s.dev.written f)) [
    | inl ok ↦ rw (e, hid_send-opened takes f s.dev h, ok) refl
    | inr bad ↦ rw (e, hid_send-opened takes f s.dev h, bad) refl
  ]

  on_content-files :
      (s : Helper) (x : Found) (sig total : ℕ) (paths : List Bytes)
      → x.hash ≢ s.last_sent
      → x.hash ≢ s.applied.last_set
      → x.kind ≡ kind_tar
      → lines (lossy x.content) ≡ paths
      → w.clipboard.batch_signature paths ≡ some (sig, total)
      → on_content takes lossy w (some x) s
        ≡ offer_batch takes lossy w (some (sig, total)) paths x.hash s
  unfolding on_content
  on_content-files s x sig total paths new_sent new_set k e b =
      let fresh : (x.hash == s.last_sent || x.hash == s.applied.last_set) ≡ false = ground arith in
      let files : (x.kind == kind_tar) ≡ true = ground arith in rw (fresh, files, e, b) refl

  pub on_clipboard-changed :
      (s : Helper) (x : Found)
      → number takes lossy w w.seq ≢ s.last_seq
      → get_clipboard_content w.clipboard ≡ some x
      → on_clipboard takes lossy w s
        ≡ on_content takes lossy w (some x) (record s { last_seq = number takes lossy w w.seq })
  unfolding on_clipboard
  on_clipboard-changed s x h e =
      let news : (number takes lossy w w.seq == s.last_seq) ≡ false = ground arith in
      rw (news, e) refl

  -- When files are copied on the second computer that the helper has not just sent or set itself, and
  -- their batch can be read, a round with an open device and no pull writes a single frame: a receiver
  -- takes it for an offer of files, and the helper keeps the paths with the id of this offer. If the
  -- write fails, the device is dropped and no offer is kept.
  pub send_round-offer :
      (s : Helper) (p : Bytes) (ps : List Bytes) (sig total : ℕ) (r : Reassembler)
      → sig < 2 ^ 64
      → s.dev.opened ≡ true
      → s.pull_request ≡ none
      → number takes lossy w w.seq ≢ s.last_seq
      → w.clipboard.file_list ≡ some (p ∷ ps)
      → All IsPath (p ∷ ps)
      → lossy (join (p ∷ ps)) ≡ join (p ∷ ps)
      → w.clipboard.batch_signature (p ∷ ps) ≡ some (sig, total)
      → bit_xor sig kind_tar ≢ s.last_sent
      → bit_xor sig kind_tar ≢ s.applied.last_set
      → (f : Bytes) × (what : Offer) × (feed r f ≡ (r, offer what))
        × (what.kind ≡ kind_tar)
        × (send_round takes lossy w s
            ≡ some (
                after_offer f what.id
                  (p ∷ ps)
                  (bit_xor sig kind_tar)
                  (record s { last_seq = number takes lossy w w.seq })))
  unfolding send_round ensure_open on_pull
  send_round-offer s p ps sig total r small opened idle news files paths utf8 batch new_sent
        new_set =
      let hash = bit_xor sig kind_tar in
      let what = offer_of takes lossy w total (p ∷ ps) hash in
      let (f, made, fed) =
        feed-offer_frame r what (omega arith) (omega arith)
          (offer_id-IsU32 hash (bit_xor-lt 64 sig kind_tar small (omega arith))) in
      let t : Helper = record s { last_seq = number takes lossy w w.seq } in
      let x : Found = record { kind = kind_tar; content = join (p ∷ ps); hash = hash } in
      let listed = ap lines utf8 ∙ lines-join p ps paths in
      (
        f,
        what,
        fed,
        refl,
        ap (λ z. on_pull takes lossy w z u >>= on_clipboard takes lossy w) idle
            ∙ ap (on_clipboard takes lossy w) as_is
            ∙ on_clipboard-changed s x news
                (get_clipboard_content-files w.clipboard p ps sig total files batch)
            ∙ on_content-files t x sig total (p ∷ ps) new_sent new_set refl listed batch
            ∙ offer_batch-eq t (p ∷ ps) hash sig total f made opened,
      )
    where
      u : Helper
      u = record s { dev = ensure_open w.found s.dev }

      open_still : (s.dev.opened || w.found) ≡ s.dev.opened
      open_still = rw opened refl

      as_is : u ≡ s
      as_is = ap (λ z. record s { dev = record s.dev { opened = z } }) open_still
