-- ===== src/Helper/Loop/Sends.antt =====
-- A copy of text is sent at once.
use beaglewing.Clipboard.Sending.{Retried}
use beaglewing.Clipboard.Sending.Delivers.{IsDelivery}
use beaglewing.Clipboard.Sending.Whole.{IsClocked}
use beaglewing.Clipboard.Text.{content_hash}
use beaglewing.Clipboard.Watcher.{Found}
use beaglewing.Clipframe.Defs.{kind_text, kind_tar, max_transfer}
use beaglewing.Clipframe.Reassembler.{Reassembler}
use beaglewing.Common.Bytes.{Bytes}
use beaglewing.Helper.Content.Reads.{get_clipboard_content-text}
use beaglewing.Helper.Defs.{Helper}
use beaglewing.Helper.Device.{Device, ensure_open, send_frames}
use beaglewing.Helper.Device.Delivers.{send_frames-IsDelivery}
use beaglewing.Helper.Loop.{
  Round, on_pull, send_content, send_new, on_content, on_clipboard, send_round, number,
}
use beaglewing.Helper.Loop.Offers.{on_clipboard-changed}
use beaglewing.Common.{
  ◌==◌, ◌>>=◌, length, ℕ, ◌≤◌, ◌≡◌, refl, ap, ◌∙◌, ◌≢◌, Bool, true, false, ◌||◌, none, some, List,
  ◌∷◌, arith,
}

module _ (takes : List Bytes → Bytes → Bool) (lossy : Bytes → Bytes) (w : Round) where
  on_content-new :
      (s : Helper) (x : Found)
      → x.hash ≢ s.last_sent
      → x.hash ≢ s.applied.last_set
      → x.kind ≢ kind_tar
      → on_content takes lossy w (some x) s ≡ send_new takes lossy w x s
  unfolding on_content
  on_content-new s x new_sent new_set k =
      let fresh : (x.hash == s.last_sent || x.hash == s.applied.last_set) ≡ false = ground arith in
      let eager : (x.kind == kind_tar) ≡ false = ground arith in rw (fresh, eager) refl

  -- When a text within the limit is copied on the second computer that the helper has not just sent
  -- or set itself, a round with no pull, on a device that is open or found and on clocks that go on,
  -- never panics. It sends the text as `send_frames` does, ends any offer of files, and keeps the
  -- hash, also when the text could not be sent.
  pub send_round-text :
      (s : Helper) (b : ℕ) (bs : Bytes) (r : Reassembler)
      → ((i : ℕ) → IsClocked (w.new_waits i))
      → ((i : ℕ) → IsClocked (w.new_again i))
      → (s.dev.opened || w.found) ≡ true
      → s.pull_request ≡ none
      → number takes lossy w w.seq ≢ s.last_seq
      → w.clipboard.file_list ≡ none
      → w.clipboard.unicode ≡ some (b ∷ bs)
      → content_hash kind_text (b ∷ bs) ≢ s.last_sent
      → content_hash kind_text (b ∷ bs) ≢ s.applied.last_set
      → length (b ∷ bs) ≤ max_transfer
      → (x : Retried) × (d : Device) × (send_round takes lossy w s
          ≡ some (record s {
            dev = d;
            local_offer = none;
            last_seq = number takes lossy w w.seq;
            last_sent = content_hash kind_text (b ∷ bs);
          }))
        × IsDelivery takes w.new_waits w.new_again s.dev.written kind_text (b ∷ bs) r (x, d.written)
  unfolding send_round on_pull send_new send_content ensure_open
  send_round-text s b bs r c e opened idle news files same new_sent new_set small =
      let u : Helper = record s { dev = ensure_open w.found s.dev } in
      let t : Helper = record u { last_seq = number takes lossy w w.seq } in
      let x : Found = record {
        kind = kind_text;
        content = b ∷ bs;
        hash = content_hash kind_text (b ∷ bs);
      } in
      let (frames, made, delivery, drops) =
        send_frames-IsDelivery takes w.new_waits w.new_again c e s.dev.written kind_text (b ∷ bs) r
          u.dev small opened refl in
      let out = send_frames takes w.new_waits w.new_again frames u.dev in
      (
        out.0,
        out.1,
        ap (λ z. on_pull takes lossy w z u >>= on_clipboard takes lossy w) idle
            ∙ on_clipboard-changed takes lossy w u x news
                (get_clipboard_content-text w.clipboard b bs files same)
            ∙ on_content-new t x new_sent new_set (λ z. absurd (omega (arith, z)))
            ∙ rw made refl,
        delivery,
      )
