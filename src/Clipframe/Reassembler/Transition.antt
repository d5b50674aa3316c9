-- ===== src/Clipframe/Reassembler/Transition.antt =====
-- What one frame can do to a `Reassembler`, as a relation between the states around it.
use beaglewing.Clipframe.Defs.{
  t_ack, t_abort, t_pong, t_ping, t_start, t_data, t_end, t_offer, t_pull, max_transfer,
}
use beaglewing.Clipframe.Encode.{next_seq}
use beaglewing.Clipframe.Frame.{u32_payload}
use beaglewing.Clipframe.Reassembler.{
  feed_parsed, FeedResult, nothing, progress, complete, Active, Reassembler, feed_offer, feed_pull,
  feed_start, feed_data, feed_end,
}
use beaglewing.Common.Bytes.{Bytes, u32_from_le}
use mathlib.Core.Path.{subst}
use beaglewing.Common.{
  ltb, ◌==◌, ==_iff, if-cases, Option-cases, length, ℕ, ◌%◌, ◌^◌, ◌≤◌, ◌≡◌, refl, sym, ap, ◌∙◌, ◌≢◌,
  inl, inr, true, not, ◌||◌, Option, none, some, [], ◌∷◌, ◌++◌, arith,
}

-- The result hands no content over.
abbrev pub IsQuiet : FeedResult → Type 0
IsQuiet (complete _ _) = ⊥
IsQuiet _ = Unit

module _ (r : Reassembler) (t seq : ℕ) (payload : Bytes) where
  pub data Change : Reassembler × FeedResult → Type 0 where
    kept : {x : FeedResult} → t ≢ t_data → t ≢ t_end → IsQuiet x → Change (r, x)
    dropped : {r' : Reassembler} {x : FeedResult} → r'.active ≡ none → IsQuiet x → Change (r', x)
    started :
        {r' : Reassembler} (kind total : ℕ) (size : Bytes)
        → t ≡ t_start
        → payload ≡ kind ∷ size
        → u32_payload size ≡ some total
        → total ≤ max_transfer
        → r'.active ≡ some (record { kind = kind; total = total; last_seq = seq; content = [] })
        → Change (r', nothing)
    extended :
        {r' : Reassembler} {n : ℕ} (a : Active)
        → r.active ≡ some a
        → t ≡ t_data
        → seq ≡ next_seq a.last_seq
        → length (a.content ++ payload) % 2 ^ 32 ≤ a.total
        → r'.active ≡ some (record a { last_seq = seq; content = a.content ++ payload })
        → Change (r', progress n)
    finished :
        {r' : Reassembler} (a : Active)
        → r.active ≡ some a
        → t ≡ t_end
        → seq ≡ next_seq a.last_seq
        → u32_payload payload ≡ some a.total
        → length a.content % 2 ^ 32 ≡ a.total
        → r'.active ≡ none
        → Change (r', complete a.kind a.content)

feed_offer-Change :
    (r : Reassembler) (seq : ℕ) (payload : Bytes)
    → Change r t_offer seq payload (feed_offer r payload)
unfolding feed_offer
feed_offer-Change r seq (_ ∷ _ ∷ _ ∷ _ ∷ _ ∷ _ ∷ _ ∷ _ ∷ _ ∷ _ ∷ _ ∷ []) =
    kept (omega arith) (omega arith) tt
feed_offer-Change r seq _ = kept (omega arith) (omega arith) tt

feed_pull-Change :
    (r : Reassembler) (seq : ℕ) (payload : Bytes) (id : Option ℕ)
    → Change r t_pull seq payload (feed_pull r id)
unfolding feed_pull
feed_pull-Change r seq payload none = kept (omega arith) (omega arith) tt
feed_pull-Change r seq payload (some id) = kept (omega arith) (omega arith) tt

feed_start-Change :
    (r : Reassembler) (seq : ℕ) (payload : Bytes)
    → Change r t_start seq payload (feed_start r seq payload)
unfolding feed_start u32_payload
feed_start-Change r seq (kind ∷ b1 ∷ b2 ∷ b3 ∷ b4 ∷ []) =
    let total = u32_from_le b1 b2 b3 b4 in
    if-cases (Change r t_start seq (kind ∷ b1 ∷ b2 ∷ b3 ∷ b4 ∷ [])) (ltb max_transfer total)
      (λ _. dropped refl tt)
      (λ e. started kind total (b1 ∷ b2 ∷ b3 ∷ b4 ∷ []) refl refl refl (ground arith) refl)
feed_start-Change r seq _ = kept (omega arith) (omega arith) tt

feed_data-Change :
    (r : Reassembler) (oa : Option Active) (seq : ℕ) (payload : Bytes)
    → r.active ≡ oa
    → Change r t_data seq payload (feed_data r oa seq payload)
unfolding feed_data
feed_data-Change r none seq payload e = dropped e tt
feed_data-Change r (some a) seq payload e =
    if-cases (Change r t_data seq payload) (not (seq == next_seq a.last_seq)) (λ _. dropped refl tt)
      (λ same.
        if-cases (Change r t_data seq payload)
          (ltb a.total (length (a.content ++ payload) % 2 ^ 32)) (λ _. dropped refl tt)
          (λ fits. extended a e refl (ground arith) (ground arith) refl))

feed_end-Change :
    (r : Reassembler) (oa : Option Active) (seq : ℕ) (payload : Bytes)
    → r.active ≡ oa
    → Change r t_end seq payload (feed_end r oa seq (u32_payload payload))
unfolding feed_end
feed_end-Change r none seq payload e = dropped refl tt
feed_end-Change r (some a) seq payload e = elim (Option-cases (u32_payload payload)) [
  | inl short ↦ rw (short, feed_end) (dropped refl tt)
  | inr (n, four) ↦
      rw (four, feed_end)
        (if-cases (Change r t_end seq payload) (not (seq == next_seq a.last_seq))
          (λ _. dropped refl tt)
          (λ same.
            if-cases (Change r t_end seq payload)
              (not (n == a.total) || not (length a.content % 2 ^ 32 == a.total))
              (λ _. dropped refl tt)
              (λ good.
                finished a e refl (ground arith) (four ∙ ap some (ground arith)) (ground arith)
                  refl)))
]

at_type :
    {r : Reassembler} {t seq : ℕ} {payload : Bytes} (k : ℕ) {out : Reassembler × FeedResult}
    → Change r k seq payload out
    → (t == k) ≡ true
    → Change r t seq payload out
at_type {r} {t} {seq} {payload} k {out} c e =
    subst (λ n. Change r n seq payload out) (sym ((==_iff t k).0 e)) c

-- A frame that parses does one of five things. It hands nothing over and leaves the receiver as it
-- was, and is neither DATA nor END; or hands nothing over and leaves no transfer in progress; or is
-- a START within the limit and begins a transfer; or is a DATA with the next number that fits the
-- size, and appends its payload; or is an END with the next number and the size, which all of the
-- content has, and hands it over.
pub feed_parsed-Change :
    (r : Reassembler) (t seq : ℕ) (payload : Bytes)
    → Change r t seq payload (feed_parsed r t seq payload)
unfolding feed_parsed
feed_parsed-Change r t seq payload =
    let P = Change r t seq payload in
    if-cases P (t == t_ping) (λ e. kept (ground arith) (ground arith) tt)
      λ _.
        if-cases P (t == t_pong) (λ e. kept (ground arith) (ground arith) tt)
          λ _.
            if-cases P (t == t_abort) (λ e. dropped refl tt)
              λ _.
                if-cases P (t == t_ack) (λ e. kept (ground arith) (ground arith) tt)
                  λ _.
                    if-cases P (t == t_offer) (at_type t_offer (feed_offer-Change r seq payload))
                      λ _.
                        if-cases P (t == t_pull)
                          (at_type t_pull (feed_pull-Change r seq payload (u32_payload payload)))
                          λ _.
                            if-cases P (t == t_start)
                              (at_type t_start (feed_start-Change r seq payload))
                              λ _.
                                if-cases P (t == t_data)
                                  (at_type t_data (feed_data-Change r r.active seq payload refl))
                                  λ nd.
                                    if-cases P (t == t_end)
                                      (at_type t_end (feed_end-Change r r.active seq payload refl))
                                      λ ne. kept (ground arith) (ground arith) tt
