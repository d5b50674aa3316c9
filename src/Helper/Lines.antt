-- ===== src/Helper/Lines.antt =====
-- windows/clipboard-agent/src/main.rs: the line ends of a received text, against those of
-- linux/input-router/src/clipboard.rs.
use beaglewing.Clipboard.Text.{unix_lines}
use mathlib.Core.Path.{subst}
use beaglewing.Common.Bytes.{Bytes}
use beaglewing.Common.{
  ◌==◌, if◌then◌else◌, Bool-cases, ℕ, ◌≡◌, refl, ap, ◌≢◌, inl, inr, [], ◌∷◌, arith,
}

-- `replace('\n', "\r\n")`
unfoldable pub crlf : Bytes → Bytes
crlf [] = []
crlf (b ∷ bs) = let rest = crlf bs in if b == 10 then 13 ∷ 10 ∷ rest else b ∷ rest

-- the two replacements
unfoldable pub windows_lines : Bytes → Bytes
unfolding crlf
windows_lines text = crlf (unix_lines text)

unix_lines-plain : (b : ℕ) (bs : Bytes) → b ≢ 13 → unix_lines (b ∷ bs) ≡ b ∷ unix_lines bs
unfolding unix_lines
unix_lines-plain b [] h = refl
unix_lines-plain b (c ∷ bs) h = ground arith

-- A carriage return stays if no line feed follows at once.
unix_lines-return :
    (c : ℕ) (bs : Bytes) → c ≢ 10 → unix_lines (13 ∷ c ∷ bs) ≡ 13 ∷ unix_lines (c ∷ bs)
unfolding unix_lines
unix_lines-return c bs h = ground arith

unix_lines-return_crlf : (bs : Bytes) → unix_lines (13 ∷ crlf bs) ≡ 13 ∷ unix_lines (crlf bs)
unfolding crlf
unix_lines-return_crlf [] = unfold unix_lines in refl
unix_lines-return_crlf (c ∷ bs) = elim (Bool-cases (c == 10)) [
  | inl feed ↦ rw feed (unix_lines-return 13 (10 ∷ crlf bs) (omega arith))
  | inr plain ↦ rw plain (unix_lines-return c (crlf bs) (ground arith))
]

unix_lines-pair : (bs : Bytes) → unix_lines (13 ∷ 10 ∷ bs) ≡ 10 ∷ unix_lines bs
unfolding unix_lines
unix_lines-pair bs = refl

unix_lines-plain_crlf : (b : ℕ) (bs : Bytes) → unix_lines (b ∷ crlf bs) ≡ b ∷ unix_lines (crlf bs)
unix_lines-plain_crlf b bs = elim (Bool-cases (b == 13)) [
  | inl return ↦
      let e : 13 ≡ b = ground arith in
      subst (λ z. unix_lines (z ∷ crlf bs) ≡ z ∷ unix_lines (crlf bs)) e (unix_lines-return_crlf bs)
  | inr other ↦ unix_lines-plain b (crlf bs) (ground arith)
]

unix_lines-crlf : (bs : Bytes) → unix_lines (crlf bs) ≡ bs
unfolding crlf
unix_lines-crlf [] = unfold unix_lines in refl
unix_lines-crlf (b ∷ bs) = elim (Bool-cases (b == 10)) [
  | inl feed ↦
      let e : 10 ≡ b = ground arith in
      rw (feed, unix_lines-pair (crlf bs), unix_lines-crlf bs) (ap (λ z. z ∷ bs) e)
  | inr plain ↦ rw (plain, unix_lines-plain_crlf b bs, unix_lines-crlf bs) refl
]

-- A text that came from the desktop, was put on the clipboard of the second computer with its line
-- ends and goes back, arrives as the desktop would have kept it; and a text that comes in twice has
-- the same line ends as if it had come once.
pub unix_lines-windows_lines :
    (text : Bytes)
    → (unix_lines (windows_lines text) ≡ unix_lines text)
      × (windows_lines (windows_lines text) ≡ windows_lines text)
unfolding windows_lines
unix_lines-windows_lines text =
    (unix_lines-crlf (unix_lines text), ap crlf (unix_lines-crlf (unix_lines text)))
