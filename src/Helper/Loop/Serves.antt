-- ===== src/Helper/Loop/Serves.antt =====
-- Offers and pulls: the files that the helper offers are sent when the desktop asks for them.
use beaglewing.Clipboard.Agent.{LocalOffer}
use beaglewing.Clipboard.Sending.{Retried, sent, gone, abandoned}
use beaglewing.Clipboard.Sending.Delivers.{IsDelivery}
use beaglewing.Clipboard.Sending.Whole.{IsClocked}
use beaglewing.Clipframe.Defs.{kind_tar, max_transfer}
use beaglewing.Clipframe.Reassembler.{Reassembler}
use beaglewing.Common.Bytes.{Bytes}
use beaglewing.Helper.Defs.{Helper}
use beaglewing.Helper.Device.{Device, ensure_open, send_frames}
use beaglewing.Helper.Device.Delivers.{send_frames-IsDelivery}
use beaglewing.Helper.Loop.{
  Round, send_content, served, serve, serve_offer, on_pull, on_clipboard, send_round, number,
}
use beaglewing.Common.{
  ◌==◌, ◌>>=◌, length, ℕ, ◌≤◌, ◌≡◌, refl, sym, ap, ◌∙◌, ◌≢◌, ◌⊎◌, Bool, true, false, ◌||◌, Option,
  none, some, List, arith,
}

module _ (takes : List Bytes → Bytes → Bool) (lossy : Bytes → Bytes) (w : Round) where
  -- The clipboard has not changed since the last round.
  abbrev pub Unchanged : Helper → Type 0
  Unchanged s = number takes lossy w w.seq ≡ s.last_seq

  on_clipboard-Unchanged : (s : Helper) → Unchanged s → on_clipboard takes lossy w s ≡ some s
  unfolding on_clipboard
  on_clipboard-Unchanged s h =
      let same : (number takes lossy w w.seq == s.last_seq) ≡ true = ground arith in rw same refl

  -- How a pull of the offer `lo` leaves the helper, with `before` written at first, for a receiver
  -- that is in the state `r` when it gets what was written.
  pub data IsServed (before : List Bytes) (lo : LocalOffer) (tar : Bytes) (r : Reassembler)
      (t : Helper) : Type 0 where
    given :
        t.local_offer ≡ none
        → IsDelivery takes w.waits w.again before kind_tar tar r (sent, t.dev.written)
        → IsServed before lo tar r t
    kept :
        (x : Retried)
        → x ≢ sent
        → (x ≢ gone) ⊎ (t.dev.opened ≡ false)
        → t.local_offer ≡ some lo
        → IsDelivery takes w.waits w.again before kind_tar tar r (x, t.dev.written)
        → IsServed before lo tar r t

  served-IsServed :
      (s : Helper) (lo : LocalOffer) (tar : Bytes) (r : Reassembler) (x : Retried) (d : Device)
      (before : List Bytes)
      → (x ≢ gone) ⊎ (d.opened ≡ false)
      → s.local_offer ≡ some lo
      → IsDelivery takes w.waits w.again before kind_tar tar r (x, d.written)
      → IsServed before lo tar r (served takes lossy w s (x, d))
  unfolding served
  served-IsServed s lo tar r Retried.sent d before g h k = given refl k
  served-IsServed s lo tar r Retried.gone d before g h k = kept gone (λ e. cc) g h k
  served-IsServed s lo tar r Retried.abandoned d before g h k = kept abandoned (λ e. cc) g h k
  served-IsServed s lo tar r Retried.unfinished d before g h k =
      kept Retried.unfinished (λ e. cc) g h k

  served-last_seq :
      (s : Helper) (x : Retried) (d : Device)
      → (served takes lossy w s (x, d)).last_seq ≡ s.last_seq
  unfolding served
  served-last_seq s Retried.sent d = refl
  served-last_seq s Retried.gone d = refl
  served-last_seq s Retried.abandoned d = refl
  served-last_seq s Retried.unfinished d = refl

  serve-IsServed :
      (s : Helper) (lo : LocalOffer) (tar : Bytes) (r : Reassembler)
      → ((i : ℕ) → IsClocked (w.waits i))
      → ((i : ℕ) → IsClocked (w.again i))
      → s.dev.opened ≡ true
      → s.local_offer ≡ some lo
      → length tar ≤ max_transfer
      → (t : Helper) × (serve takes lossy w (some tar) s ≡ some t)
        × (t.last_seq ≡ s.last_seq)
        × IsServed s.dev.written lo tar r t
  unfolding serve send_content
  serve-IsServed s lo tar r c e h k small =
      let (frames, made, delivery, drops) =
        send_frames-IsDelivery takes w.waits w.again c e s.dev.written kind_tar tar r s.dev small h
          refl in
      let out = send_frames takes w.waits w.again frames s.dev in
      (
        served takes lossy w s out,
        rw made refl,
        served-last_seq s out.0 out.1,
        served-IsServed s lo tar r out.0 out.1 s.dev.written drops k delivery,
      )

  on_pull-same :
      (s : Helper) (lo : LocalOffer) (tar : Bytes)
      → s.local_offer ≡ some lo
      → w.pack lo.paths ≡ some tar
      → on_pull takes lossy w (some lo.id) s
        ≡ serve takes lossy w (some tar) (record s { pull_request = none })
  unfolding on_pull
  on_pull-same s lo tar h p =
      let same : (lo.id == lo.id) ≡ true = ground arith in rw (h, serve_offer) (rw (same, p) refl)

  on_pull-other :
      (s : Helper) (id : ℕ) (o : Option LocalOffer)
      → s.local_offer ≡ o
      → ((lo : LocalOffer) → o ≡ some lo → lo.id ≢ id)
      → on_pull takes lossy w (some id) s ≡ some (record s { pull_request = none })
  unfolding on_pull
  on_pull-other s id none e h = rw (e, serve_offer) refl
  on_pull-other s id (some lo) e h =
      let other : (lo.id == id) ≡ false = ground (arith, h lo refl) in
      rw (e, serve_offer) (rw other refl)

  -- A round in which the reader has left a pull for the offered files, the device is open or found,
  -- and the clipboard has not changed, never panics, for an archive within the limit and on clocks
  -- that go on. Either the device took frames that make a receiver in any state hand over the archive,
  -- and the offer is over; or the offer is kept for another pull: two attempts were stalled by a full
  -- window and given up, or the device refused the last frame that was tried and is dropped.
  pub send_round-pull :
      (s : Helper) (lo : LocalOffer) (tar : Bytes) (r : Reassembler)
      → ((i : ℕ) → IsClocked (w.waits i))
      → ((i : ℕ) → IsClocked (w.again i))
      → (s.dev.opened || w.found) ≡ true
      → s.pull_request ≡ some lo.id
      → s.local_offer ≡ some lo
      → w.pack lo.paths ≡ some tar
      → length tar ≤ max_transfer
      → Unchanged s
      → (t : Helper) × (send_round takes lossy w s ≡ some t) × IsServed s.dev.written lo tar r t
  unfolding send_round ensure_open
  send_round-pull s lo tar r c e opened asked h p small same =
      let u : Helper = record s { dev = ensure_open w.found s.dev } in
      let (t, ran, seq, done) =
        serve-IsServed (record u { pull_request = none }) lo tar r c e opened h small in
      let first = on_pull-same u lo tar h p ∙ ran in
      (
        t,
        ap (λ z. on_pull takes lossy w z u >>= on_clipboard takes lossy w) asked
            ∙ ap (λ z. z >>= on_clipboard takes lossy w) first
            ∙ on_clipboard-Unchanged t (same ∙ sym seq),
        done,
      )

  -- A pull for an offer that the helper does not hold is dropped: a round without other news writes
  -- nothing, and changes nothing but that a closed device is opened.
  pub send_round-other_pull :
      (s : Helper) (id : ℕ)
      → s.pull_request ≡ some id
      → ((lo : LocalOffer) → s.local_offer ≡ some lo → lo.id ≢ id)
      → Unchanged s
      → send_round takes lossy w s
        ≡ some (record s { pull_request = none; dev = ensure_open w.found s.dev })
  unfolding send_round ensure_open
  send_round-other_pull s id asked h same =
      let u : Helper = record s { dev = ensure_open w.found s.dev } in
      ap (λ z. on_pull takes lossy w z u >>= on_clipboard takes lossy w) asked
      ∙ ap (λ z. z >>= on_clipboard takes lossy w) (on_pull-other u id s.local_offer refl h)
      ∙ on_clipboard-Unchanged (record u { pull_request = none }) same
