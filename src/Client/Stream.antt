-- ===== src/Client/Stream.antt =====
-- A batch of messages takes effect in order, and nothing of it is left in the buffer.
use beaglewing.Bridge.Hid.{Report}
use beaglewing.Bridge.Session.Ends.{drain-step}
use beaglewing.Bridge.Session.Outcomes.{
  Continues-and_then, Continues, Ensures, runs, fails, and_then-cong, and_then_assoc,
}
use beaglewing.Bridge.Session.{
  read_batch, Session, Outcome, running, and_then, send_to, flush_pending, take_pending, drain,
}
use beaglewing.Bridge.Message.{incomplete, next_frame}
use beaglewing.Bridge.Session.Outcomes.{Continues, Continues-and_then, and_then-cong_of_Continues}
use beaglewing.Client.Defs.{
  message_of, Command, keepalive, release_all, get_status, key_down, key_up, pointer_button,
  pointer_wheel, pointer_abs, command_frame,
}
use beaglewing.Client.Delivery.{InRange, effect, handle_message-effect, next_frame-command_frame}
use beaglewing.Common.Bytes.{Bytes}
use beaglewing.Common.{
  if-cases, Option-cases, length, All, length-append, ℕ, zero, suc, ◌+◌, ◌-◌, ◌≤◌, ◌≡◌, refl, sym,
  ap, ◌∙◌, inl, inr, Bool, true, List, [], ◌∷◌, ◌++◌, append-nil, append_assoc, arith,
}

-- The bytes of the messages, one after the other.
unfoldable pub stream : List Command → Bytes
stream [] = []
stream (c ∷ cs) = command_frame c ++ stream cs

-- A session that has been greeted and has this in its buffer.
abbrev Greeted : Bytes → Session → Type 0
Greeted buf s = (s.greeted ≡ true) × (s.buf ≡ buf)

module _ (accepts : List Report → Report → Bool) (delivers : List Bytes → Bytes → Bool) where
  -- The effects of the commands in order, with what is still unread in the buffer.
  unfoldable pub effects : Session → List Command → Bytes → Outcome
  effects s [] rest = running (record s { buf = rest })
  effects s (c ∷ cs) rest =
      and_then (effect accepts delivers (record s { buf = stream cs ++ rest }) c)
        (λ z. effects z cs rest)

  take_pending-Greeted :
      (s : Session) → s.greeted ≡ true → Greeted s.buf (take_pending accepts delivers s)
  unfolding take_pending
  take_pending-Greeted s g = elim (Option-cases s.pending_abs) [
    | inl e ↦ rw (e, flush_pending) (g, refl)
    | inr (p, e) ↦ rw (e, flush_pending) (g, refl)
  ]

  effect-Greeted :
      (s : Session) (c : Command)
      → s.greeted ≡ true
      → Ensures (Greeted s.buf) (effect accepts delivers s c)
  unfolding effect send_to
  effect-Greeted s keepalive g = runs (g, refl)
  effect-Greeted s (key_down u) g = runs (g, refl)
  effect-Greeted s (key_up u) g = runs (g, refl)
  effect-Greeted s (pointer_abs x y) g = runs (g, refl)
  effect-Greeted s (pointer_button b) g = runs (take_pending-Greeted s g)
  effect-Greeted s (pointer_wheel d) g = runs (take_pending-Greeted s g)
  effect-Greeted s release_all g = runs (take_pending-Greeted s g)
  effect-Greeted s get_status g =
      if-cases (Ensures (Greeted s.buf)) (delivers s.sent _) (λ _. runs (g, refl))
        (λ _. fails (g, refl))

  drain-effect :
      (fuel : ℕ) (s : Session) (c : Command) (rest : Bytes)
      → s.greeted ≡ true
      → InRange c
      → drain accepts delivers (suc fuel) (record s { buf = command_frame c ++ rest })
        ≡ and_then
            (effect accepts delivers (record s { buf = rest }) c)
            (drain accepts delivers fuel)
  drain-effect fuel s c rest g h =
      drain-step accepts delivers fuel (record s { buf = command_frame c ++ rest })
        (next_frame-command_frame c rest)
      ∙ rw (handle_message-effect accepts delivers c (record s { buf = rest }) g h)

  pub drain-stream :
      (cs : List Command) (fuel more : ℕ) (s : Session) (rest : Bytes)
      → s.greeted ≡ true
      → All InRange cs
      → fuel ≡ length cs + more
      → drain accepts delivers fuel (record s { buf = stream cs ++ rest })
        ≡ and_then (effects s cs rest) (drain accepts delivers more)
  unfolding stream effects
  drain-stream [] fuel more s rest g h e = let same : fuel ≡ more = omega arith in rw same
  drain-stream (c ∷ cs) zero more s rest g h e = absurd (omega arith)
  drain-stream (c ∷ cs) (suc fuel) more s rest g (hc, hcs) e =
      rw (append_assoc (command_frame c) (stream cs) rest) (
        drain-effect fuel s c (stream cs ++ rest) g hc
        ∙ and_then-cong (effect-Greeted (record s { buf = stream cs ++ rest }) c g)
            (λ z k. rw (← k.1) at (drain-stream cs fuel more z rest k.0 hcs (omega arith)))
        ∙ sym (
            and_then_assoc (effect accepts delivers (record s { buf = stream cs ++ rest }) c)
              (λ z. effects z cs rest) (drain accepts delivers more)))

  effects-Continues :
      (cs : List Command) (s : Session) (rest : Bytes)
      → s.greeted ≡ true
      → Continues (λ z. z.buf ≡ rest) (effects s cs rest)
  unfolding effects
  effects-Continues [] s rest g = refl
  effects-Continues (c ∷ cs) s rest g =
      Continues-and_then (λ z. z.buf ≡ rest) (λ z. effects z cs rest)
        (effect-Greeted (record s { buf = stream cs ++ rest }) c g)
        (λ z k. effects-Continues cs z rest k.0)

  drain_empty :
      (more : ℕ) (s : Session) → s.buf ≡ [] → drain accepts delivers (suc more) s ≡ running s
  unfolding drain next_frame
  drain_empty more s e = let f : next_frame s.buf ≡ incomplete = ap next_frame e in rw (f, drain)

length-stream-ge : (cs : List Command) → length cs ≤ length (stream cs)
unfolding stream command_frame
length-stream-ge [] = omega arith
length-stream-ge (c ∷ cs) =
    omega (arith, length-stream-ge cs, length-append (message_of c).1 (stream cs))

-- A batch that holds the frames of some commands of the client, with arguments in range, received
-- in a greeted session with an empty buffer, has the effects of these commands in their order; then
-- the newest position that is still pending is reported.
pub read_batch-stream :
    (accepts : List Report → Report → Bool) (delivers : List Bytes → Bytes → Bool)
    (cs : List Command) (s : Session) (now : ℕ)
    → s.greeted ≡ true
    → s.buf ≡ []
    → All InRange cs
    → read_batch accepts delivers s (stream cs) now
      ≡ and_then
          (effects accepts delivers (record s { last_rx = now }) cs [])
          (λ z. running (take_pending accepts delivers z))
read_batch-stream accepts delivers cs s now g e h =
    let s' : Session = record s { buf = []; last_rx = now } in
    let more = length (stream cs) - length cs in
    let enough : suc (length (stream cs)) ≡ length cs + suc more =
      omega (arith, length-stream-ge cs) in
    let drained =
      drain-stream accepts delivers cs (suc (length (stream cs))) (suc more) s' [] g h enough in
    unfold read_batch in
    rw e (
      rw (rw append-nil at drained) (
        and_then_assoc (effects accepts delivers s' cs []) (drain accepts delivers (suc more)) _
        ∙ and_then-cong_of_Continues (λ z. z.buf ≡ []) (effects accepts delivers s' cs [])
            (effects-Continues accepts delivers cs s' [] g)
            (λ z k. rw (drain_empty accepts delivers more z k))))
