-- ===== src/Relay/Write/Bounded.antt =====
-- Writing a frame ends within a bounded wait.
use mathlib.Core.Path.{subst}
use beaglewing.Relay.Write.{
  Wrote, taken, blocks, fails, Writing, Outcome, forwarded, dropped, lost, on_wrote, write_from,
  rounds, write_frame,
}
use beaglewing.Common.{
  ltb, ◌==◌, Bool-cases, if-cases, ℕ, zero, suc, ◌+◌, ◌*◌, ◌≤◌, ◌<◌, ◌≡◌, refl, ◌⊎◌, inl, inr,
  arith,
}

-- A poll that finds no room in the queue lasts for its whole timeout.
pub record IsPolled (w : Writing) : Type 0 where
  pub waits : (k : ℕ) → 200 * k ≤ w.elapsed k

-- What the wait comes to, from the k-th write on.
pub data IsBounded (w : Writing) (k : ℕ) : Outcome → Type 0 where
  goes_out :
      (n : ℕ)
      → k ≤ n
      → w.result n ≡ taken
      → ((j : ℕ) → k ≤ j → j < n → w.result j ≡ blocks)
      → IsBounded w k forwarded
  times_out :
      (n : ℕ)
      → k ≤ n
      → 10000 < w.elapsed n
      → ((j : ℕ) → k ≤ j → j < suc n → w.result j ≡ blocks)
      → IsBounded w k dropped
  breaks :
      (n : ℕ)
      → k ≤ n
      → w.result n ≡ fails
      → ((j : ℕ) → k ≤ j → j < n → w.result j ≡ blocks)
      → IsBounded w k lost

Wrote-cases : (x : Wrote) → (x ≡ taken) ⊎ ((x ≡ fails) ⊎ (x ≡ blocks))
Wrote-cases taken = inl refl
Wrote-cases fails = inr (inl refl)
Wrote-cases blocks = inr (inr refl)

-- A write that blocks, and those after it.
one_more :
    (w : Writing) {k n : ℕ}
    → w.result k ≡ blocks
    → ((j : ℕ) → suc k ≤ j → j < n → w.result j ≡ blocks)
    → (j : ℕ) → k ≤ j
    → j < n
    → w.result j ≡ blocks
one_more w {k} {n} b h j lo hi = elim (Bool-cases (j == k)) [
  | inl e ↦ let same : k ≡ j = ground arith in subst (λ z. w.result z ≡ blocks) same b
  | inr ne ↦ h j (ground arith) hi
]

later-IsBounded :
    (w : Writing) {k : ℕ} {o : Outcome}
    → w.result k ≡ blocks
    → IsBounded w (suc k) o
    → IsBounded w k o
later-IsBounded w b (goes_out n lo e h) = goes_out n (omega arith) e (one_more w b h)
later-IsBounded w b (times_out n lo e h) = times_out n (omega arith) e (one_more w b h)
later-IsBounded w b (breaks n lo e h) = breaks n (omega arith) e (one_more w b h)

on_wrote-IsBounded :
    (w : Writing) (k : ℕ) (later : Outcome)
    → (w.elapsed k ≤ 10000 → IsBounded w (suc k) later)
    → IsBounded w k (on_wrote (w.result k) (w.elapsed k) later)
unfolding on_wrote
on_wrote-IsBounded w k later go = elim (Wrote-cases (w.result k)) [
  | inl t ↦ rw (t, on_wrote) (goes_out k (omega arith) t (λ j lo hi. absurd (omega arith)))
  | inr (inl f) ↦ rw (f, on_wrote) (breaks k (omega arith) f (λ j lo hi. absurd (omega arith)))
  | inr (inr b) ↦
      rw (b, on_wrote)
        (if-cases (IsBounded w k) (ltb 10000 (w.elapsed k))
          (λ late.
            times_out k (omega arith) (ground arith)
              (one_more w b (λ j lo hi. absurd (omega arith))))
          (λ early. later-IsBounded w b (go (ground arith))))
]

write_from-IsBounded :
    (w : Writing)
    → IsPolled w
    → (fuel k : ℕ) → k < rounds
    → fuel + k ≡ rounds
    → IsBounded w k (write_from fuel w k)
unfolding write_from
write_from-IsBounded w p zero k h e = absurd (omega arith)
write_from-IsBounded w p (suc fuel) k h e =
    on_wrote-IsBounded w k (write_from fuel w (suc k))
      (λ early. write_from-IsBounded w p fuel (suc k) (omega (arith, p.waits k)) (omega arith))

-- Writing a frame ends, if each poll that finds no room lasts for its whole timeout. The frame goes
-- out with the first write that does not block, or that write reports an error; or all writes block
-- until ten seconds are over, and the frame is dropped.
pub write_frame-IsBounded : (w : Writing) → IsPolled w → IsBounded w 0 (write_frame w)
unfolding write_frame
write_frame-IsBounded w p = write_from-IsBounded w p rounds 0 (omega arith) (omega arith)
