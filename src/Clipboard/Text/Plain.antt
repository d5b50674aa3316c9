-- ===== src/Clipboard/Text/Plain.antt =====
-- `lines` on text whose line ends are known.
use beaglewing.Clipboard.Text.{lines, to_first}
use beaglewing.Common.Bytes.{Bytes}
use beaglewing.Common.{◌==◌, All, ℕ, ◌≡◌, refl, ap, ◌∙◌, ◌≢◌, false, [], ◌∷◌, ◌++◌, arith}

-- neither a line feed nor a carriage return
abbrev pub IsPlain : ℕ → Type 0
IsPlain b = (b ≢ 10) × (b ≢ 13)

lines-plain : (b : ℕ) (rest : Bytes) → IsPlain b → lines (b ∷ rest) ≡ to_first b (lines rest)
unfolding lines
lines-plain b [] h = let plain : (b == 10) ≡ false = ground (arith, h) in rw plain refl
lines-plain b (c ∷ rest) h =
    let plain : (b == 10) ≡ false = ground (arith, h) in
    let no_return : (b == 13) ≡ false = ground (arith, h) in rw (plain, no_return) refl

lines-feed : (rest : Bytes) → lines (10 ∷ rest) ≡ [] ∷ lines rest
unfolding lines
lines-feed [] = refl
lines-feed (c ∷ rest) = refl

pub lines-end : (b : ℕ) (bs : Bytes) → All IsPlain (b ∷ bs) → lines (b ∷ bs) ≡ (b ∷ bs) ∷ []
lines-end b [] (h, _) = lines-plain b [] h ∙ unfold lines in refl
lines-end b (c ∷ cs) (h, hs) = lines-plain b (c ∷ cs) h ∙ ap (to_first b) (lines-end c cs hs)

pub lines-line :
    (line rest : Bytes) → All IsPlain line → lines (line ++ (10 ∷ rest)) ≡ line ∷ lines rest
lines-line [] rest h = lines-feed rest
lines-line (b ∷ bs) rest (h, hs) =
    lines-plain b (bs ++ (10 ∷ rest)) h ∙ ap (to_first b) (lines-line bs rest hs)
