-- ===== src/Router/Barriers.antt =====
-- linux/input-router/src/router.rs: `arm_barriers`. What the portal answers is given: the zones
-- (`none` is an error of the call), and for a position whether the barrier was accepted.
use beaglewing.Common.Words.{add_i32, sub_i32}
use beaglewing.Router.Defs.{Zone}
use beaglewing.Common.{if◌then◌else◌, ◌>>=◌, ℕ, Bool, Option, none, some, List, [], ◌∷◌}

pub record Position : Type 0 where
  pub x1 : ℕ
  pub y1 : ℕ
  pub x2 : ℕ
  pub y2 : ℕ

abbrev position : ℕ → ℕ → ℕ → ℕ → Position
position a b c d = record { x1 = a; y1 = b; x2 = c; y2 = d }

-- `zone.width as i32` keeps the bit pattern.
unfoldable pub candidates : Zone → List Position
candidates z =
    let right = add_i32 z.x z.width in
    let bottom = add_i32 z.y z.height in
    position right z.y right (sub_i32 bottom 1)
    ∷ position (sub_i32 right 1) z.y (sub_i32 right 1) (sub_i32 bottom 1)
    ∷ position right z.y right bottom
    ∷ []

-- The loop over the candidates; `none` is an error or that all were rejected.
unfoldable pub try_candidates : (Position → Option Bool) → List Position → Option Position
try_candidates portal [] = none
try_candidates portal (p ∷ ps) =
    let later = try_candidates portal ps in
    elim (portal p) [ none ↦ none | some placed ↦ if placed then some p else later ]

-- the zone, and the position at which the barrier stands
unfoldable pub arm_barriers :
    Option (List Zone) → (Position → Option Bool) → Option (Zone × Position)
arm_barriers none portal = none
arm_barriers (some []) portal = none
arm_barriers (some (z ∷ zs)) portal = do p ← try_candidates portal (candidates z); some (z, p)
