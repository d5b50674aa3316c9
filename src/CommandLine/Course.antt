-- ===== src/CommandLine/Course.antt =====
-- linux/input-router/src/main.rs: the bridge in the course of `send-test`.
use mathlib.Core.Path.{subst}
use beaglewing.Bridge.Hid.{
  Hid, Report, release_all as release_device, held_count, held_key_count, flush_kbd, flush_ptr,
  write_report,
}
use beaglewing.Bridge.Defs.{msg_status, heartbeat_timeout}
use beaglewing.Bridge.Message.{encode}
use beaglewing.Bridge.Session.{
  Round, received, would_block, Session, Outcome, running, flush_pending, take_pending,
}
use beaglewing.Client.Defs.{
  Command, keepalive, release_all, get_status, key_down, key_up, pointer_button, pointer_wheel,
  pointer_abs, read_status, recv,
}
use beaglewing.Client.Delivery.{effect}
use beaglewing.Client.Stream.{stream}
use beaglewing.Common.Bytes.{Bytes}
use beaglewing.CommandLine.{complete, hid_failing, verdict}
use beaglewing.Common.{
  if◌then◌else◌, Option-cases, All, ℕ, ◌+◌, ◌≤◌, ◌≡◌, refl, sym, ap, ◌∙◌, ◌⊎◌, inl, inr, Bool, true,
  false, none, some, List, [], ◌∷◌, ◌++◌,
}

-- Everything but the query of the status.
abbrev pub IsInput : Command → Type 0
IsInput get_status = ⊥
IsInput c = Unit {0}

pub All-split :
    {A : Type 0} (P : A → Type 0) (xs ys : List A) → All P (xs ++ ys) → All P xs × All P ys
All-split P [] ys h = (tt, h)
All-split P (x ∷ xs) ys h = let r = All-split P xs ys h.1 in ((h.0, r.0), r.1)

-- What is left of the commands before the release: some input, the release and the query.
pub data IsRest : List Command → Type 0 where
  more : {c : Command} {cs : List Command} → IsInput c → IsRest cs → IsRest (c ∷ cs)
  ends : IsRest (release_all ∷ get_status ∷ [])

-- The rounds of a session, whose last bytes came at `last`, in which exactly these commands are read:
-- in each the bridge finds nothing or some whole messages, before the heartbeat is due, and it is not
-- told to stop.
pub data IsPaced : ℕ → List Command → List Round → Type 0 where
  over : {last : ℕ} → IsPaced last [] []
  waits :
      {last : ℕ} {cs : List Command} {rs : List Round} (r : Round)
      → r.shutdown ≡ false
      → r.now ≤ last + heartbeat_timeout
      → r.read ≡ would_block
      → IsPaced last cs rs
      → IsPaced last cs (r ∷ rs)
  reads :
      {last : ℕ} {cs : List Command} {rs : List Round} (r : Round) (batch rest : List Command)
      → r.shutdown ≡ false
      → r.now ≤ last + heartbeat_timeout
      → r.read ≡ received (stream batch)
      → cs ≡ batch ++ rest
      → IsPaced r.read_at rest rs
      → IsPaced last cs (r ∷ rs)

module _ (accepts : List Report → Report → Bool) (delivers : List Bytes → Bytes → Bool) where
  -- Nothing was sent, and the session is in the same state but for the device.
  pub record IsKept (s t : Session) : Type 0 where
    pub greeted_same : t.greeted ≡ s.greeted
    pub last_same : t.last_rx ≡ s.last_rx
    pub sent_same : t.sent ≡ s.sent
    pub buf_same : t.buf ≡ s.buf

  -- The function goes on in a state that satisfies P.
  abbrev pub Goes : (Session → Type 0) → Outcome → Type 0
  Goes P o = (t : Session) × (o ≡ running t) × P t

  pub take_pending-IsKept : (s : Session) → IsKept s (take_pending accepts delivers s)
  unfolding take_pending
  take_pending-IsKept s = elim (Option-cases s.pending_abs) [
    | inl e ↦
        rw (e, flush_pending)
          (record { greeted_same = refl; last_same = refl; sent_same = refl; buf_same = refl })
    | inr (p, e) ↦
        rw (e, flush_pending)
          (record { greeted_same = refl; last_same = refl; sent_same = refl; buf_same = refl })
  ]

  device-IsKept : (s t : Session) (hid : Hid) → IsKept s t → IsKept s (record t { hid = hid })
  device-IsKept s t hid k = record {
    greeted_same = k.greeted_same;
    last_same = k.last_same;
    sent_same = k.sent_same;
    buf_same = k.buf_same;
  }

  pub unchanged-IsKept : (s : Session) → IsKept s s
  unchanged-IsKept s = record {
    greeted_same = refl;
    last_same = refl;
    sent_same = refl;
    buf_same = refl;
  }

  pub effect-IsKept :
      (s : Session) (c : Command) → IsInput c → Goes (IsKept s) (effect accepts delivers s c)
  unfolding effect
  effect-IsKept s keepalive i = (_, refl, unchanged-IsKept s)
  effect-IsKept s (key_down u) i = (_, refl, device-IsKept s s _ (unchanged-IsKept s))
  effect-IsKept s (key_up u) i = (_, refl, device-IsKept s s _ (unchanged-IsKept s))
  effect-IsKept s (pointer_abs x y) i = (
    record s { pending_abs = some (x, y) },
    refl,
    record { greeted_same = refl; last_same = refl; sent_same = refl; buf_same = refl },
  )
  effect-IsKept s (pointer_button b) i = (_, refl, device-IsKept s _ _ (take_pending-IsKept s))
  effect-IsKept s (pointer_wheel d) i = (_, refl, device-IsKept s _ _ (take_pending-IsKept s))
  effect-IsKept s release_all i = (_, refl, device-IsKept s _ _ (take_pending-IsKept s))
  effect-IsKept s get_status i = absurd i

  pub answer-verdict :
      (ok : Bool)
      → let answer = encode msg_status (0 ∷ 0 ∷ 0 ∷ (if ok then 1 else 0) ∷ []) in
        (verdict (read_status (recv answer)) ≡ complete)
        ⊎ (verdict (read_status (recv answer)) ≡ hid_failing)
  unfolding verdict read_status recv
  answer-verdict true = inl refl
  answer-verdict false = inr refl

  -- A greeted session, which began with `before` sent, in the course of the test: with these commands
  -- still to come.
  pub data IsUnder (before : List Bytes) (t : Session) : List Command → Type 0 where
    typing :
        {cs : List Command} → IsRest cs → t.greeted ≡ true → t.sent ≡ before → IsUnder before t cs
    released :
        t.greeted ≡ true
        → t.sent ≡ before
        → t.pending_abs ≡ none
        → t.hid.modifiers ≡ 0
        → held_key_count t.hid ≡ 0
        → t.hid.buttons ≡ 0
        → IsUnder before t (get_status ∷ [])
    answered :
        (answer : Bytes)
        → t.greeted ≡ true
        → t.sent ≡ before ++ (answer ∷ [])
        → (verdict (read_status (recv answer)) ≡ complete)
          ⊎ (verdict (read_status (recv answer)) ≡ hid_failing)
        → IsUnder before t []

  -- Neither the buffer nor the time counts.
  pub moved-IsUnder :
      (before : List Bytes) (t : Session) (buf : Bytes) (now : ℕ) {cs : List Command}
      → IsUnder before t cs
      → IsUnder before (record t { buf = buf; last_rx = now }) cs
  moved-IsUnder before t buf now (typing r g e) = typing r g e
  moved-IsUnder before t buf now (released g e p m k b) = released g e p m k b
  moved-IsUnder before t buf now (answered x g e v) = answered x g e v

  take_pending-same : (t : Session) → t.pending_abs ≡ none → take_pending accepts delivers t ≡ t
  unfolding take_pending flush_pending
  take_pending-same t p = ap (flush_pending accepts delivers t) p

  pub take_pending-IsUnder :
      (before : List Bytes) (t : Session) {cs : List Command}
      → IsUnder before t cs
      → IsUnder before (take_pending accepts delivers t) cs
  take_pending-IsUnder before t (typing r g e) =
      let k = take_pending-IsKept t in typing r (k.greeted_same ∙ g) (k.sent_same ∙ e)
  take_pending-IsUnder before t (released g e p m k b) =
      subst (λ z. IsUnder before z (get_status ∷ [])) (sym (take_pending-same t p))
        (released g e p m k b)
  take_pending-IsUnder before t (answered x g e v) =
      let k = take_pending-IsKept t in answered x (k.greeted_same ∙ g) (k.sent_same ∙ e) v

  -- The session stays, with the buffer and the time of its last bytes as they were.
  pub record IsNext (before : List Bytes) (s : Session) (cs : List Command) (t : Session)
      : Type 0 where
    pub under : IsUnder before t cs
    pub buf_kept : t.buf ≡ s.buf
    pub last_kept : t.last_rx ≡ s.last_rx

  pub release-IsNext :
      (before : List Bytes) (s : Session)
      → s.greeted ≡ true
      → s.sent ≡ before
      → Goes (IsNext before s (get_status ∷ [])) (effect accepts delivers s release_all)
  unfolding effect release_device flush_kbd flush_ptr write_report held_count
  release-IsNext before s g e =
      let k = take_pending-IsKept s in
      (
        _,
        refl,
        record {
          under =
              released (k.greeted_same ∙ g) (k.sent_same ∙ e) (take_pending-none s) refl refl refl;
          buf_kept = k.buf_same;
          last_kept = k.last_same;
        },
      )
    where
      take_pending-none : (z : Session) → (take_pending accepts delivers z).pending_abs ≡ none
      take_pending-none z =
          unfold take_pending in
          elim (Option-cases z.pending_abs) [
            | inl e ↦ rw (e, flush_pending) e
            | inr (p, e) ↦ rw (e, flush_pending) refl
          ]
