-- ===== src/CommandLine/SendTest.antt =====
-- linux/input-router/src/main.rs: what the bridge answers to `send-test`.
use mathlib.Core.Path.{subst}
use beaglewing.Bridge.Hid.{Report, held_key_count}
use beaglewing.Bridge.Defs.{msg_status, heartbeat_timeout}
use beaglewing.Bridge.Message.{encode}
use beaglewing.Bridge.Session.{
  Round, handle_client, handle_round, on_read, read_batch, Session, Outcome, running, and_then,
  send_to, take_pending,
}
use beaglewing.Client.Defs.{Command, release_all, get_status, read_status, recv}
use beaglewing.Client.Delivery.{InRange, effect}
use beaglewing.Client.Stream.{stream, effects, read_batch-stream}
use beaglewing.Common.Bytes.{Bytes, IsByte}
use beaglewing.CommandLine.{
  diamond, left_click, typed, router_ok, input_commands, test_commands, complete, hid_failing,
  verdict,
}
use beaglewing.Common.{
  ltb, if◌then◌else◌, if-cases, All, All-append, ℕ, ◌-◌, ◌≡◌, refl, sym, ap, ◌∙◌, ◌⊎◌, Bool, true,
  false, List, [], ◌∷◌, ◌++◌, arith,
}
use beaglewing.CommandLine.Course.{
  Goes, IsUnder, IsNext, take_pending-IsKept, effect-IsKept, answer-verdict, moved-IsUnder,
  take_pending-IsUnder, release-IsNext, All-split, IsInput, IsRest, IsPaced, more, ends, typing,
  released, answered, waits, reads, over,
}

module _ (accepts : List Report → Report → Bool) (delivers : List Bytes → Bytes → Bool) where
  module _ (h : (sent : List Bytes) (frame : Bytes) → delivers sent frame ≡ true)
      (before : List Bytes) where
    status-IsNext :
        (s : Session)
        → s.greeted ≡ true
        → s.sent ≡ before
        → s.hid.modifiers ≡ 0
        → held_key_count s.hid ≡ 0
        → s.hid.buttons ≡ 0
        → Goes accepts delivers
            (IsNext accepts delivers before s [])
            (effect accepts delivers s get_status)
    unfolding effect send_to
    status-IsNext s g e m k b =
        let ok = (if s.hid.hid_ok then 1 else 0) in
        let answer =
          encode msg_status (s.hid.modifiers ∷ held_key_count s.hid ∷ s.hid.buttons ∷ ok ∷ []) in
        let clean : answer ≡ encode msg_status (0 ∷ 0 ∷ 0 ∷ ok ∷ []) = rw (m, k, b) refl in
        rw (h s.sent answer) (
          record s { sent = s.sent ++ (answer ∷ []) },
          refl,
          record {
            under = answered answer g (ap (λ z. z ++ (answer ∷ [])) e) (
                subst
                  (λ z.
                    (verdict (read_status (recv z)) ≡ complete)
                    ⊎ (verdict (read_status (recv z)) ≡ hid_failing))
                  (sym clean) (answer-verdict accepts delivers s.hid.hid_ok));
            buf_kept = refl;
            last_kept = refl;
          },
        )

    effect-IsNext :
        (s : Session) (c : Command) (cs : List Command)
        → IsUnder accepts delivers before s (c ∷ cs)
        → Goes accepts delivers (IsNext accepts delivers before s cs) (effect accepts delivers s c)
    effect-IsNext s c cs (typing (more i r) g e) =
        let (t, ran, k) = effect-IsKept accepts delivers s c i in
        (
          t,
          ran,
          record {
            under = typing r (k.greeted_same ∙ g) (k.sent_same ∙ e);
            buf_kept = k.buf_same;
            last_kept = k.last_same;
          },
        )
    effect-IsNext s _ _ (typing ends g e) = release-IsNext accepts delivers before s g e
    effect-IsNext s _ _ (released g e p m k b) = status-IsNext s g e m k b

    effects-IsNext :
        (batch rest : List Command) (s : Session)
        → IsUnder accepts delivers before s (batch ++ rest)
        → Goes accepts delivers
            (IsNext accepts delivers before (record s { buf = [] }) rest)
            (effects accepts delivers s batch [])
    unfolding effects
    effects-IsNext [] rest s u = (
      record s { buf = [] },
      refl,
      record {
        under = moved-IsUnder accepts delivers before s [] s.last_rx u;
        buf_kept = refl;
        last_kept = refl;
      },
    )
    effects-IsNext (c ∷ cs) rest s u =
        let s' : Session = record s { buf = stream cs ++ [] } in
        let (t, ran, n) =
          effect-IsNext s' c (cs ++ rest)
            (moved-IsUnder accepts delivers before s (stream cs ++ []) s.last_rx u) in
        let (v, ran', m) = effects-IsNext cs rest t n.under in
        (
          v,
          ap (λ z. and_then z (λ y. effects accepts delivers y cs [])) ran ∙ ran',
          record { under = m.under; buf_kept = m.buf_kept; last_kept = m.last_kept ∙ n.last_kept },
        )

    read_batch-IsNext :
        (batch rest : List Command) (s : Session) (now : ℕ)
        → s.buf ≡ []
        → s.greeted ≡ true
        → All InRange batch
        → IsUnder accepts delivers before s (batch ++ rest)
        → (t : Session) × (read_batch accepts delivers s (stream batch) now ≡ running t)
          × IsUnder accepts delivers before t rest
          × (t.buf ≡ [])
          × (t.last_rx ≡ now)
    read_batch-IsNext batch rest s now e g r u =
        let (t, ran, n) =
          effects-IsNext batch rest (record s { last_rx = now })
            (moved-IsUnder accepts delivers before s s.buf now u) in
        let k = take_pending-IsKept accepts delivers t in
        (
          take_pending accepts delivers t,
          read_batch-stream accepts delivers batch s now g e r
              ∙ ap (λ z. and_then z (λ y. running (take_pending accepts delivers y))) ran,
          take_pending-IsUnder accepts delivers before t n.under,
          k.buf_same ∙ n.buf_kept,
          k.last_same ∙ n.last_kept,
        )

    under_greeted :
        (s : Session) {cs : List Command} → IsUnder accepts delivers before s cs → s.greeted ≡ true
    under_greeted s (typing r g e) = g
    under_greeted s (released g e p m k b) = g
    under_greeted s (answered x g e v) = g

    handle_client-IsUnder :
        (rounds : List Round) (cs : List Command) (s : Session)
        → IsPaced s.last_rx cs rounds
        → s.buf ≡ []
        → All InRange cs
        → IsUnder accepts delivers before s cs
        → Goes accepts delivers
            (λ t. IsUnder accepts delivers before t [])
            (handle_client accepts delivers s rounds)
    unfolding handle_client handle_round on_read
    handle_client-IsUnder [] _ s over b r u = (s, refl, u)
    handle_client-IsUnder (x ∷ rs) cs s (waits _ go soon none_read p) b r u =
        let due : ltb heartbeat_timeout (x.now - s.last_rx) ≡ false = ground (arith, soon) in
        rw (go, due, none_read) (handle_client-IsUnder rs cs s p b r u)
    handle_client-IsUnder (x ∷ rs) cs s (reads _ batch rest go soon found splits p) b r u =
        let due : ltb heartbeat_timeout (x.now - s.last_rx) ≡ false = ground (arith, soon) in
        let ranges = All-split InRange batch rest (subst (All InRange) splits r) in
        let (t, ran, v, e, l) =
          read_batch-IsNext batch rest s x.read_at b (under_greeted s u) ranges.0
            (subst (IsUnder accepts delivers before s) splits u) in
        let (z, done, w) =
          handle_client-IsUnder rs rest t (subst (λ n. IsPaced n rest rs) (sym l) p) e ranges.1 v in
        rw (go, due, found)
          (z, ap (λ o. and_then o (λ y. handle_client accepts delivers y rs)) ran ∙ done, w)

  -- One answer was sent, and the client's verdict on it is that the state is clean.
  pub data IsTested (s : Session) : Outcome → Type 0 where
    tested :
        (t : Session) (answer : Bytes)
        → t.sent ≡ s.sent ++ (answer ∷ [])
        → (verdict (read_status (recv answer)) ≡ complete)
          ⊎ (verdict (read_status (recv answer)) ≡ hid_failing)
        → IsTested s (running t)

  under-IsTested :
      (s : Session) (o : Outcome)
      → Goes accepts delivers (λ t. IsUnder accepts delivers s.sent t []) o
      → IsTested s o
  under-IsTested s o (t, ran, typing r g e) = elim r [ ]
  under-IsTested s o (t, ran, answered x g e v) = subst (IsTested s) (sym ran) (tested t x e v)

typed-InRange : (us : List ℕ) → All IsByte us → All InRange (typed us)
unfolding typed
typed-InRange [] h = tt
typed-InRange (u ∷ us) h = (h.0, (h.0, typed-InRange us h.1))

typed-IsInput : (us : List ℕ) → All IsInput (typed us)
unfolding typed
typed-IsInput [] = tt
typed-IsInput (u ∷ us) = (tt, (tt, typed-IsInput us))

diamond-InRange : All InRange diamond
unfolding diamond
diamond-InRange = ground arith

router_ok-InRange : All IsByte router_ok
router_ok-InRange = ground arith

commands-IsInput : (click : Bool) → All IsInput (input_commands click)
unfolding input_commands diamond
commands-IsInput click =
    All-append IsInput diamond _ (tt, (tt, (tt, (tt, (tt, (tt, tt))))))
      (All-append IsInput (if click then left_click else []) (typed router_ok)
        (if-cases (All IsInput) click (λ _. (tt, (tt, tt))) (λ _. tt)) (typed-IsInput router_ok))

commands-InRange : (click : Bool) → All InRange (test_commands click)
unfolding test_commands input_commands
commands-InRange click =
    All-append InRange (input_commands click) (release_all ∷ get_status ∷ [])
      (All-append InRange diamond ((if click then left_click else []) ++ typed router_ok)
        diamond-InRange
        (All-append InRange (if click then left_click else []) (typed router_ok)
          (if-cases (All InRange) click (λ _. ground arith) (λ _. tt))
          (typed-InRange router_ok router_ok-InRange)))
      (tt, (tt, tt))

inputs-IsRest :
    (cs : List Command) → All IsInput cs → IsRest (cs ++ (release_all ∷ get_status ∷ []))
inputs-IsRest [] h = ends
inputs-IsRest (c ∷ cs) h = more h.0 (inputs-IsRest cs h.1)

-- When the bridge, whose answers can be written, reads the messages of `send-test` in a greeted
-- session with an empty buffer, in any rounds that take each message whole, with pauses below the
-- heartbeat, it stays in the session and answers once, and the verdict of `send-test` on that answer
-- is that the test is complete or that reports fail to be written, never that the state is not clean.
pub handle_client-IsTested :
    (accepts : List Report → Report → Bool) (delivers : List Bytes → Bytes → Bool) (click : Bool)
    (s : Session) (rounds : List Round)
    → s.greeted ≡ true
    → s.buf ≡ []
    → ((sent : List Bytes) (frame : Bytes) → delivers sent frame ≡ true)
    → IsPaced s.last_rx (test_commands click) rounds
    → IsTested accepts delivers s (handle_client accepts delivers s rounds)
unfolding test_commands
handle_client-IsTested accepts delivers click s rounds g e h p =
    under-IsTested accepts delivers s (handle_client accepts delivers s rounds) (
      handle_client-IsUnder accepts delivers h s.sent rounds (test_commands click) s p e
        (commands-InRange click)
        (typing (inputs-IsRest (input_commands click) (commands-IsInput click)) g refl))
