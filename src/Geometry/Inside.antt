-- ===== src/Geometry/Inside.antt =====
-- The cursor stays on the screen of the current target, and no operation panics.
use beaglewing.Geometry.Scalar.{Scalar, IsOrdered}
use beaglewing.Geometry.Space.{
  right, left, force_local, map_y, Edge, local_x, remote_x, canonical, enter_remote, screen_of,
  Target, local, remote, Crossing, stays, to_remote, to_local, Screen, Space, clamp, cur_screen,
}
use beaglewing.Common.{inr, inl, if◌then◌else◌, ℕ, ◌<◌, ◌≡◌, refl, ◌⊎◌, true, false, some, arith}

-- How a crossing changes the target.
abbrev pub Crosses : Target → Crossing → Target → Type 0
Crosses before stays after = after ≡ before
Crosses before to_remote after = (before ≡ local) × (after ≡ remote)
Crosses before to_local after = (before ≡ remote) × (after ≡ local)

Target-cases : (t : Target) → (t ≡ local) ⊎ (t ≡ remote)
Target-cases local = inl refl
Target-cases remote = inr refl

module _ (f : Scalar) (o : IsOrdered f) where
  open f use {F, add, sub, mul, div, lt, le, zero_f, one, canonical_max, round_u16}

  -- Bounds that a comparison can refute do not fail: NaN would pass them.
  pub record IsWithin (x hi : F) : Type 0 where
    pub above : lt x zero_f ≡ false
    pub below : lt hi x ≡ false

  -- A screen is at least one pixel wide and high.
  pub record IsUsable (s : Screen f) : Type 0 where
    pub wide : le zero_f (sub s.width one) ≡ true
    pub high : le zero_f (sub s.height one) ≡ true

  pub record AreUsable (s : Space f) : Type 0 where
    pub local_usable : IsUsable s.local_screen
    pub remote_usable : IsUsable s.remote_screen

  pub record IsInside (s : Space f) : Type 0 where
    pub across : IsWithin s.x (sub (cur_screen f s).width one)
    pub down : IsWithin s.y (sub (cur_screen f s).height one)

  pub clamp-IsWithin :
      (x hi : F) → le zero_f hi ≡ true → (y : F) × (clamp f x zero_f hi ≡ some y) × IsWithin y hi
  unfolding clamp
  clamp-IsWithin x hi h = (
    (if lt x zero_f then zero_f else if lt hi x then hi else x),
    rw h,
    record {
      above = ground (arith, o.lt_irrefl zero_f, o.le-not_gt zero_f hi h);
      below = ground (arith, o.lt_irrefl hi, o.le-not_gt zero_f hi h);
    },
  )

  edge-IsWithin : (hi : F) → le zero_f hi ≡ true → IsWithin zero_f hi × IsWithin hi hi
  edge-IsWithin hi h = (
    record { above = o.lt_irrefl zero_f; below = o.le-not_gt zero_f hi h },
    record { above = o.le-not_gt zero_f hi h; below = o.lt_irrefl hi },
  )

  pub remote_x-IsWithin :
      (e : Edge) (s : Screen f) → IsUsable s → IsWithin (remote_x f e s) (sub s.width one)
  unfolding remote_x
  remote_x-IsWithin right s u = (edge-IsWithin _ u.wide).0
  remote_x-IsWithin left s u = (edge-IsWithin _ u.wide).1

  pub local_x-IsWithin :
      (e : Edge) (s : Screen f) → IsUsable s → IsWithin (local_x f e s) (sub s.width one)
  unfolding local_x
  local_x-IsWithin right s u = (edge-IsWithin _ u.wide).1
  local_x-IsWithin left s u = (edge-IsWithin _ u.wide).0

  pub cur_screen-IsUsable :
      (t : Target) (s : Space f)
      → AreUsable s
      → IsUsable (screen_of f t s.local_screen s.remote_screen)
  cur_screen-IsUsable local s u = u.local_usable
  cur_screen-IsUsable remote s u = u.remote_usable

  -- What an operation keeps of the space, and where it leaves the cursor.
  pub record IsMoved (s : Space f) (c : Crossing) (s' : Space f) : Type 0 where
    pub inside : IsInside s'
    pub same_local : s'.local_screen ≡ s.local_screen
    pub same_remote : s'.remote_screen ≡ s.remote_screen
    pub same_edge : s'.edge ≡ s.edge
    pub crosses : Crosses s.target c s'.target

  pub IsMoved-AreUsable :
      {s s' : Space f} {c : Crossing} → IsMoved s c s' → AreUsable s → AreUsable s'
  IsMoved-AreUsable m u = record {
    local_usable = rw m.same_local u.local_usable;
    remote_usable = rw m.same_remote u.remote_usable;
  }

  -- The canonical coordinates are u16 values, and are computed without a panic, wherever the cursor
  -- is.
  pub canonical_range :
      (s : Space f) → (cx cy : ℕ) × (canonical f s ≡ some (cx, cy)) × (cx < 65536) × (cy < 65536)
  unfolding canonical
  canonical_range s =
      let h = o.canonical_ordered in
      let (x, e, v) =
        clamp-IsWithin (mul (div s.x (sub s.remote_screen.width one)) canonical_max) canonical_max
          h in
      let (y, d, w) =
        clamp-IsWithin (mul (div s.y (sub s.remote_screen.height one)) canonical_max) canonical_max
          h in
      (round_u16 x, round_u16 y, rw (e, d), o.round_range x, o.round_range y)

  -- The way back to the local screen does not panic, wherever the cursor is.
  pub force_local_total :
      (s : Space f)
      → AreUsable s
      → (s' : Space f) × (force_local f s ≡ some s') × AreUsable s' × (s'.target ≡ local)
  unfolding force_local map_y
  force_local_total s u = elim (Target-cases s.target) [
    | inl e ↦ (s, rw (e, force_local), u, e)
    | inr e ↦
        let (y, d, v) =
          clamp-IsWithin (mul (div s.y s.remote_screen.height) s.local_screen.height)
            (sub s.local_screen.height one) u.local_usable.high in
        (
          record s { y = y; x = local_x f s.edge s.local_screen; target = local },
          rw (e, force_local) (rw d),
          record { local_usable = u.local_usable; remote_usable = u.remote_usable },
          refl,
        )
  ]

  -- Entering the remote screen does not panic either.
  pub enter_remote_total :
      (s : Space f) (y : F)
      → AreUsable s
      → (s' : Space f) × (enter_remote f s y ≡ some s') × AreUsable s' × (s'.target ≡ remote)
  unfolding enter_remote map_y
  enter_remote_total s local_y u =
      let (y0, e0, v0) =
        clamp-IsWithin local_y (sub s.local_screen.height one) u.local_usable.high in
      let (y1, e1, v1) =
        clamp-IsWithin (mul (div y0 s.local_screen.height) s.remote_screen.height)
          (sub s.remote_screen.height one) u.remote_usable.high in
      (
        record s { y = y1; x = remote_x f s.edge s.remote_screen; target = remote },
        rw (e0, e1),
        record { local_usable = u.local_usable; remote_usable = u.remote_usable },
        refl,
      )
