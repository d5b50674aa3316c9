-- ===== src/Geometry/Space.antt =====
-- linux/input-router/src/geometry.rs: `Space`. `none` is the panic of `f64::clamp` on bounds that
-- are not ordered.
use beaglewing.Geometry.Scalar.{Scalar}
use beaglewing.Common.{if◌then◌else◌, ◌>>=◌, ℕ, Option, none, some}

pub data Target : Type 0 where
  local remote : Target

pub data Edge : Type 0 where
  right left : Edge

pub data Crossing : Type 0 where
  stays to_remote to_local : Crossing

module _ (f : Scalar) where
  open f use {F, add, sub, mul, div, lt, le, zero_f, one, two, canonical_max, round_u16}

  pub record Screen : Type 0 where
    pub width : F
    pub height : F

  pub record Space : Type 0 where
    pub local_screen : Screen
    pub remote_screen : Screen
    pub edge : Edge
    pub target : Target
    pub x : F
    pub y : F

  unfoldable pub new_space : Screen → Screen → Edge → Space
  new_space here there edge = record {
    local_screen = here;
    remote_screen = there;
    edge = edge;
    target = local;
    x = div here.width two;
    y = div here.height two;
  }

  -- `x.clamp(lo, hi)`
  unfoldable pub clamp : F → F → F → Option F
  clamp x lo hi =
      if le lo hi then some (if lt x lo then lo else if lt hi x then hi else x) else none

  abbrev pub screen_of : Target → Screen → Screen → Screen
  screen_of local here there = here
  screen_of remote here there = there

  abbrev pub cur_screen : Space → Screen
  cur_screen s = screen_of s.target s.local_screen s.remote_screen

  unfoldable pub map_y : Screen → Screen → F → Option F
  map_y from to y = clamp (mul (div y from.height) to.height) zero_f (sub to.height one)

  -- the match on target and edge
  unfoldable pub crossing_of : Target → Edge → F → Screen → Crossing
  crossing_of local right nx s = if lt (sub s.width one) nx then to_remote else stays
  crossing_of local left nx s = if lt nx zero_f then to_remote else stays
  crossing_of remote right nx s = if lt nx zero_f then to_local else stays
  crossing_of remote left nx s = if lt (sub s.width one) nx then to_local else stays

  -- where the cursor is put on the remote and on the local screen
  unfoldable pub remote_x : Edge → Screen → F
  remote_x right there = zero_f
  remote_x left there = sub there.width one

  unfoldable pub local_x : Edge → Screen → F
  local_x right here = sub here.width one
  local_x left here = zero_f

  -- the match on the crossing, on a space whose y is updated
  unfoldable pub reseat : Space → F → Crossing → Option Space
  reseat s nx stays = do
    x ← clamp nx zero_f (sub (cur_screen s).width one)
    some (record s { x = x })
  reseat s nx to_remote = do
    y ← map_y s.local_screen s.remote_screen s.y
    some (record s { y = y; x = remote_x s.edge s.remote_screen; target = remote })
  reseat s nx to_local = do
    y ← map_y s.remote_screen s.local_screen s.y
    some (record s { y = y; x = local_x s.edge s.local_screen; target = local })

  unfoldable pub apply_delta : Space → F → F → Option (Space × Crossing)
  unfolding reseat
  apply_delta s dx dy = do
    let nx = add s.x dx
    y ← clamp (add s.y dy) zero_f (sub (cur_screen s).height one)
    let crossing = crossing_of s.target s.edge nx (cur_screen s)
    s' ← reseat (record s { y = y }) nx crossing
    some (s', crossing)

  unfoldable pub canonical : Space → Option (ℕ × ℕ)
  canonical s = do
    cx ← clamp (mul (div s.x (sub s.remote_screen.width one)) canonical_max) zero_f canonical_max
    cy ← clamp (mul (div s.y (sub s.remote_screen.height one)) canonical_max) zero_f canonical_max
    some (round_u16 cx, round_u16 cy)

  unfoldable pub enter_remote : Space → F → Option Space
  enter_remote s local_y = do
    y' ← clamp local_y zero_f (sub s.local_screen.height one)
    y ← map_y s.local_screen s.remote_screen y'
    some (record s { y = y; x = remote_x s.edge s.remote_screen; target = remote })

  force_from : Target → Space → Option Space
  force_from local s = some s
  force_from remote s = do
    y ← map_y s.remote_screen s.local_screen s.y
    some (record s { y = y; x = local_x s.edge s.local_screen; target = local })

  unfoldable pub force_local : Space → Option Space
  unfolding force_from
  force_local s = force_from s.target s
