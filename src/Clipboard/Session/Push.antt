-- ===== src/Clipboard/Session/Push.antt =====
-- Offered files are sent when the other machine asks for them, or when the user crosses to it.
use beaglewing.Clipboard.Agent.{
  pulled, arrived, on_result, handle_frame, send_packed, LocalOffer, Agent, to_remote, asked,
  Outside, Step, stays, leaves, send_content, push_local_offer,
}
use beaglewing.Clipboard.Sending.{Retried, sent, gone, abandoned, send_with_retry}
use beaglewing.Clipboard.Sending.Delivers.{
  IsDelivery, delivered, given_up, cut_off, send_with_retry-IsDelivery,
}
use beaglewing.Clipboard.Sending.Whole.{IsClocked}
use beaglewing.Clipframe.Reassembler.Requests.{feed-pull_frame}
use beaglewing.Clipboard.Session.{
  on_pull, received, on_arrived, after_push, on_event, push_offer, on_asked,
}
use beaglewing.Clipframe.Frame.{pull_frame}
use beaglewing.Clipframe.Defs.{kind_tar, max_transfer}
use beaglewing.Clipframe.Reassembler.{pull, feed, Reassembler}
use mathlib.Core.Path.{subst}
use beaglewing.Common.Bytes.{Bytes, IsU32}
use beaglewing.Common.{
  ◌==◌, ==_iff, length, ℕ, ◌≤◌, ◌≡◌, refl, sym, ap, ◌∙◌, Bool, true, none, some, List,
}

module _ (takes : List Bytes → Bytes → Bool) (trim lossy : Bytes → Bytes) (w : Outside) where
  -- How an attempt to push an archive leaves the agent, with `before` written at first and with the
  -- offer `lo` of the batch, for a receiver that is in the state `r` when it gets what was written.
  pub data IsPushed (before : List Bytes) (lo : LocalOffer) (tar : Bytes) (r : Reassembler)
      : Step → Type 0 where
    given :
        (b : Agent)
        → b.local_offer ≡ none
        → IsDelivery takes w.waits w.again before kind_tar tar r (sent, b.written)
        → IsPushed before lo tar r (stays b)
    kept :
        (b : Agent)
        → b.local_offer ≡ some lo
        → IsDelivery takes w.waits w.again before kind_tar tar r (abandoned, b.written)
        → IsPushed before lo tar r (stays b)
    broke :
        (b : Agent)
        → IsDelivery takes w.waits w.again before kind_tar tar r (gone, b.written)
        → IsPushed before lo tar r (leaves b)

  delivery-IsPushed :
      (before : List Bytes) (lo : LocalOffer) (tar : Bytes) (r : Reassembler) (b : Agent)
      (on_ok on_refused : Agent → Agent) (out : Retried × List Bytes)
      → IsDelivery takes w.waits w.again before kind_tar tar r out
      → ((z : List Bytes)
          → ((on_ok (record b { written = z })).local_offer ≡ none)
            × ((on_ok (record b { written = z })).written ≡ z))
      → ((z : List Bytes)
          → ((on_refused (record b { written = z })).local_offer ≡ some lo)
            × ((on_refused (record b { written = z })).written ≡ z))
      → IsPushed before lo tar r (
          after_push takes trim lossy on_ok on_refused (some (out.0, record b { written = out.1 })))
  delivery-IsPushed before lo tar r b on_ok on_refused _
        (delivered {written} earlier frames results e t f g) h k =
      let c : Agent = record b { written = written } in
      given (on_ok c) (h written).0 (delivered earlier frames results ((h written).1 ∙ e) t f g)
  delivery-IsPushed before lo tar r b on_ok on_refused _
        (given_up {written} one two e t1 t2 q1 q2 f) h k =
      let c : Agent = record b { written = written } in
      kept (on_refused c) (k written).0 (given_up one two ((k written).1 ∙ e) t1 t2 q1 q2 f)
  delivery-IsPushed before lo tar r b on_ok on_refused _ (cut_off {written} frames f e bad) h k =
      broke (record b { written = written }) (cut_off frames f e bad)

  push_local_offer-eq :
      (lo : LocalOffer) (tar : Bytes) (b : Agent) (out : Retried × List Bytes)
      → w.pack lo.paths ≡ some tar
      → send_with_retry takes w.waits w.again b.written kind_tar tar ≡ some out
      → push_local_offer takes trim lossy w lo b ≡ some (out.0, record b { written = out.1 })
  unfolding push_local_offer send_packed send_content
  push_local_offer-eq lo tar b out p e = ap (λ z. send_packed takes trim lossy w z b) p ∙ rw e refl

  handle_frame-pull :
      (f : Bytes) (id : ℕ) (b : Agent)
      → feed b.reasm f ≡ (b.reasm, pull id)
      → handle_frame takes trim lossy w f b ≡ some (b, some (pulled id))
  unfolding handle_frame on_result
  handle_frame-pull f id b e =
      ap (λ z. on_result takes trim lossy w z.1 (record b { reasm = z.0 })) e

  on_pull-same :
      (lo : LocalOffer) (b : Agent)
      → on_pull takes trim lossy w lo.id (some lo) b
        ≡ after_push takes trim lossy
            (λ z. record z { local_offer = none })
            (λ z. z)
            (push_local_offer takes trim lossy w lo b)
  unfolding on_pull
  on_pull-same lo b =
      let same : (lo.id == lo.id) ≡ true = (==_iff lo.id lo.id).1 refl in rw same refl

  module _ (a : Agent) (lo : LocalOffer) (tar : Bytes) (r : Reassembler)
      (c : (i : ℕ) → IsClocked (w.waits i)) (d : (i : ℕ) → IsClocked (w.again i))
      (has : a.local_offer ≡ some lo) (packs : w.pack lo.paths ≡ some tar)
      (small : length tar ≤ max_transfer) where
    -- When the user crosses to the other machine while files are offered and their archive is
    -- within the limit, the archive is sent: the connection took its frames, a receiver in any
    -- state hands it over, and the offer is gone; or both attempts were stalled by a full window
    -- and given up, the receiver is idle and the offer stays; or the connection refused the last
    -- frame that was tried, and the session ends. The clock goes on while the sender sleeps.
    pub on_event-crossing :
        IsPushed a.written lo tar r (on_event takes trim lossy w (asked to_remote) a)
    unfolding on_event on_asked push_offer
    on_event-crossing =
        let b : Agent = record a { local_offer = none } in
        let (out, e, v) =
          send_with_retry-IsDelivery takes w.waits w.again b.written kind_tar tar r c d small in
        rw (has, push_offer)
          (rw (push_local_offer-eq lo tar b out packs e) (
            delivery-IsPushed a.written lo tar r b (λ z. z)
              (λ z. record z { local_offer = some lo }) out v (λ z. (refl, refl))
              (λ z. (refl, refl))))

    -- When the other machine asks, by its id, for the files that are offered and their archive is
    -- within the limit, the archive is sent while that frame is handled: the connection took its
    -- frames, a receiver in any state hands it over, and the offer is gone; or both attempts were
    -- stalled by a full window and given up, the receiver is idle and the offer stays; or the
    -- connection refused the last frame that was tried, and the session ends. The clock goes on
    -- while the sender sleeps.
    pub on_event-pull :
        IsU32 lo.id
        → (f : Bytes) × (pull_frame lo.id ≡ some f)
          × IsPushed a.written lo tar r (on_event takes trim lossy w (arrived f) a)
    unfolding on_event on_arrived received
    on_event-pull small_id =
        let (f, made, fed) = feed-pull_frame a.reasm lo.id small_id in
        let b : Agent = record a { last_rx = w.now } in
        let (out, e, v) =
          send_with_retry-IsDelivery takes w.waits w.again b.written kind_tar tar r c d small in
        let pushed : Step =
          after_push takes trim lossy (λ z. record z { local_offer = none }) (λ z. z)
            (some (out.0, record b { written = out.1 })) in
        let runs : on_event takes trim lossy w (arrived f) a ≡ pushed =
          ap (received takes trim lossy w) (handle_frame-pull f lo.id b fed)
          ∙ ap (λ z. on_pull takes trim lossy w lo.id z b) has
          ∙ on_pull-same lo b
          ∙ ap (after_push takes trim lossy (λ z. record z { local_offer = none }) (λ z. z))
              (push_local_offer-eq lo tar b out packs e) in
        (
          f,
          made,
          subst (IsPushed a.written lo tar r) (sym runs) (
              delivery-IsPushed a.written lo tar r b (λ z. record z { local_offer = none }) (λ z. z)
                out v (λ z. (refl, refl)) (λ z. (has, refl))),
        )
