-- ===== src/Clipframe/Reassembler/Sound.antt =====
-- What the receiver hands over was sent: the content of one transfer, whole and in order.
use beaglewing.Clipframe.Defs.{t_start, t_data, t_end, max_transfer}
use beaglewing.Clipframe.Encode.{next_seq}
use beaglewing.Clipframe.Frame.{Parsed, parse, u32_payload}
use beaglewing.Clipframe.Frame.Layout.{length-parse-payload-le}
use beaglewing.Clipframe.Reassembler.{
  Option, unparseable, error, feed_parsed, complete, FeedResult, Active, Reassembler, fresh, feed,
}
use beaglewing.Clipframe.Reassembler.Transition.{
  feed_parsed-Change, IsQuiet, Change, kept, dropped, started, extended, finished,
}
use beaglewing.Common.Bytes.{Bytes}
use mathlib.Core.Path.{subst}
use beaglewing.Common.{
  inr, refl, inl, length-append, arith, Option-cases, append_assoc, length, ℕ, ◌≤◌, ◌≡◌, ◌≢◌, none,
  some, List, [], ◌∷◌, ◌++◌,
}

-- The frames received so far, and the state that they lead to.
pub data Fed : List Bytes → Reassembler → Type 0 where
  begin : Fed [] fresh
  next :
      {frames : List Bytes} {r : Reassembler} (raw : Bytes)
      → Fed frames r
      → Fed (frames ++ (raw ∷ [])) (feed r raw).0

-- A frame that is no part of a transfer in progress.
abbrev IsNeutral : Bytes → Type 0
IsNeutral raw = (p : Parsed) → parse raw ≡ some p → (p.t ≢ t_data) × (p.t ≢ t_end)

-- These frames open a transfer of this kind and announced size, and carry this content in
-- frames numbered without a gap, the last one `seq`. Other frames may stand between them.
pub data Carries (kind total : ℕ) : ℕ → Bytes → List Bytes → Type 0 where
  start :
      (raw : Bytes) (p : Parsed) (size : Bytes)
      → parse raw ≡ some p
      → p.t ≡ t_start
      → p.payload ≡ kind ∷ size
      → u32_payload size ≡ some total
      → Carries kind total p.seq [] (raw ∷ [])
  more :
      {seq : ℕ} {content : Bytes} {frames : List Bytes} (raw : Bytes) (p : Parsed)
      → Carries kind total seq content frames
      → parse raw ≡ some p
      → p.t ≡ t_data
      → p.seq ≡ next_seq seq
      → Carries kind total p.seq (content ++ p.payload) (frames ++ (raw ∷ []))
  between :
      {seq : ℕ} {content : Bytes} {frames : List Bytes} (raw : Bytes)
      → Carries kind total seq content frames
      → IsNeutral raw
      → Carries kind total seq content (frames ++ (raw ∷ []))

-- The transfer in progress is what the last of the frames received carry.
pub record IsTracked (frames : List Bytes) (a : Active) : Type 0 where
  pub before : List Bytes
  pub carriers : List Bytes
  pub splits : frames ≡ before ++ carriers
  pub carried : Carries a.kind a.total a.last_seq a.content carriers
  pub bounded : (a.total ≤ max_transfer) × (length a.content ≤ a.total)

abbrev Tracks : List Bytes → Option Active → Type 0
Tracks frames current = (a : Active) → current ≡ some a → IsTracked frames a

none-Tracks :
    (frames : List Bytes) (current : Option Active) → current ≡ none → Tracks frames current
none-Tracks frames current e a f = absurd (cc)

only-Tracks :
    (frames : List Bytes) (current : Option Active) (a : Active)
    → current ≡ some a
    → IsTracked frames a
    → Tracks frames current
only-Tracks frames current a e k b f = let same : a ≡ b = cc in subst (IsTracked frames) same k

parse-IsNeutral :
    (raw : Bytes) (p : Parsed) → parse raw ≡ some p → p.t ≢ t_data → p.t ≢ t_end → IsNeutral raw
parse-IsNeutral raw p e nd ne q f =
    let same : p ≡ q = cc in subst (λ z. (z.t ≢ t_data) × (z.t ≢ t_end)) same (nd, ne)

-- One more frame that carries `a` on.
extend-IsTracked :
    {frames : List Bytes} {a b : Active} (raw : Bytes) (k : IsTracked frames a)
    → Carries b.kind b.total b.last_seq b.content (k.carriers ++ (raw ∷ []))
    → (b.total ≤ max_transfer) × (length b.content ≤ b.total)
    → IsTracked (frames ++ (raw ∷ [])) b
extend-IsTracked raw k c h = record {
  before = k.before;
  carriers = k.carriers ++ (raw ∷ []);
  splits = rw k.splits (append_assoc k.before k.carriers (raw ∷ []));
  carried = c;
  bounded = h;
}

Change-Tracks :
    {r : Reassembler} {out : Reassembler × FeedResult} (frames : List Bytes) (raw : Bytes)
    (p : Parsed)
    → parse raw ≡ some p
    → Change r p.t p.seq p.payload out
    → Tracks frames r.active
    → Tracks (frames ++ (raw ∷ [])) out.0.active
Change-Tracks frames raw p e (kept nd ne _) k = λ a f.
    extend-IsTracked raw (k a f) (between raw (k a f).carried (parse-IsNeutral raw p e nd ne))
      (k a f).bounded
Change-Tracks frames raw p e (dropped f _) k = none-Tracks _ _ f
Change-Tracks frames raw p e (started kind total size t shape four small now) k =
    only-Tracks _ _ _ now (record {
      before = frames;
      carriers = raw ∷ [];
      splits = refl;
      carried = start raw p size e t shape four;
      bounded = (small, omega arith);
    })
Change-Tracks frames raw p e (extended a was t follows fits now) k = only-Tracks _ _ _ now (
    extend-IsTracked raw (k a was) (more raw p (k a was).carried e t follows) (
      (k a was).bounded.0,
      omega (
        arith,
        (k a was).bounded,
        length-append a.content p.payload,
        length-parse-payload-le raw e,
      ),
    ))
Change-Tracks frames raw p e (finished a was t follows four fits now) k = none-Tracks _ _ now

feed-eq_parsed :
    (r : Reassembler) (raw : Bytes) {p : Parsed}
    → parse raw ≡ some p
    → feed r raw ≡ feed_parsed r p.t p.seq p.payload
unfolding feed
feed-eq_parsed r raw e = rw (e, feed)

feed-eq_bad :
    (r : Reassembler) (raw : Bytes) → parse raw ≡ none → feed r raw ≡ (r, error unparseable)
unfolding feed
feed-eq_bad r raw e = rw (e, feed)

feed-Tracks :
    (frames : List Bytes) (raw : Bytes) (r : Reassembler)
    → Tracks frames r.active
    → Tracks (frames ++ (raw ∷ [])) (feed r raw).0.active
feed-Tracks frames raw r k = elim (Option-cases (parse raw)) [
  | inl bad ↦ rw (feed-eq_bad r raw bad) (λ a f.
      extend-IsTracked raw (k a f) (between raw (k a f).carried (λ q e. cc)) (k a f).bounded)
  | inr (p, e) ↦
      rw (feed-eq_parsed r raw e)
        (Change-Tracks frames raw p e (feed_parsed-Change r p.t p.seq p.payload) k)
]

Fed-Tracks : {frames : List Bytes} {r : Reassembler} → Fed frames r → Tracks frames r.active
Fed-Tracks begin = λ a f. absurd (cc)
Fed-Tracks (next {frames} {r} raw h) = feed-Tracks frames raw r (Fed-Tracks h)

-- What stands behind content that is handed over at the frame `raw`, after `frames`.
pub record IsDelivered (frames : List Bytes) (raw : Bytes) (kind : ℕ) (content : Bytes)
    : Type 0 where
  pub before : List Bytes
  pub carriers : List Bytes
  pub seq : ℕ
  pub last : Parsed
  pub splits : frames ≡ before ++ carriers
  pub carried : Carries kind (length content) seq content carriers
  pub parsed : parse raw ≡ some last
  pub ends : last.t ≡ t_end
  pub follows : last.seq ≡ next_seq seq
  pub confirms : u32_payload last.payload ≡ some (length content)
  pub within_limit : length content ≤ max_transfer

Change-IsDelivered :
    {r : Reassembler} {out : Reassembler × FeedResult} (frames : List Bytes) (raw : Bytes)
    (p : Parsed) (kind : ℕ) (content : Bytes)
    → parse raw ≡ some p
    → Change r p.t p.seq p.payload out
    → Tracks frames r.active
    → out.1 ≡ complete kind content
    → IsDelivered frames raw kind content
Change-IsDelivered frames raw p kind content e (kept nd ne q) k h = absurd (subst IsQuiet h q)
Change-IsDelivered frames raw p kind content e (dropped f q) k h = absurd (subst IsQuiet h q)
Change-IsDelivered frames raw p kind content e (started _ _ _ _ _ _ _ _) k h = absurd (cc)
Change-IsDelivered frames raw p kind content e (extended _ _ _ _ _ _) k h = absurd (cc)
Change-IsDelivered frames raw p kind content e (finished a was t follows four fits now) k h =
    let whole : length a.content ≡ a.total = omega (arith, fits, (k a was).bounded) in
    let same_kind : a.kind ≡ kind = cc in
    let same_content : a.content ≡ content = cc in
    let delivered : IsDelivered frames raw a.kind a.content = record {
      before = (k a was).before;
      carriers = (k a was).carriers;
      seq = a.last_seq;
      last = p;
      splits = (k a was).splits;
      carried = rw whole (k a was).carried;
      parsed = e;
      ends = t;
      follows = follows;
      confirms = rw whole four;
      within_limit = omega (arith, (k a was).bounded);
    } in
    subst (IsDelivered frames raw kind) same_content
      (subst (λ n. IsDelivered frames raw n a.content) same_kind delivered)

-- When a receiver that was fed `frames` hands over content at the frame `raw`, the last of these
-- frames carry exactly this content in order and without a gap, opened by a START that announced
-- its kind and its size, and `raw` is an END with the next number that announces the size again.
-- The content has the announced size, which is within the limit on transfers.
pub feed-complete-IsDelivered :
    {frames : List Bytes} {r : Reassembler} (raw : Bytes) (kind : ℕ) (content : Bytes)
    → Fed frames r
    → (feed r raw).1 ≡ complete kind content
    → IsDelivered frames raw kind content
feed-complete-IsDelivered {frames} {r} raw kind content h e = elim (Option-cases (parse raw)) [
  | inl bad ↦ absurd (cc (feed-eq_bad r raw bad))
  | inr (p, f) ↦
      Change-IsDelivered frames raw p kind content f (feed_parsed-Change r p.t p.seq p.payload)
        (Fed-Tracks h) (rw (feed-eq_parsed r raw f) at e)
]
