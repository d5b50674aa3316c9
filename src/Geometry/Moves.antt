-- ===== src/Geometry/Moves.antt =====
-- linux/input-router/src/geometry.rs: where a motion and a crossing leave the cursor.
use beaglewing.Geometry.Scalar.{Scalar, IsOrdered}
use beaglewing.Geometry.Space.{
  right, left, force_local, map_y, Edge, local_x, reseat, apply_delta, remote_x, enter_remote,
  crossing_of, Target, local, remote, Crossing, stays, to_remote, to_local, Screen, Space,
  cur_screen,
}
use beaglewing.Geometry.Inside.{
  IsWithin, AreUsable, IsMoved, clamp-IsWithin, remote_x-IsWithin, local_x-IsWithin,
  cur_screen-IsUsable,
}
use beaglewing.Common.{◌≡◌, refl, ◌⊎◌, some, arith}

module _ (f : Scalar) (o : IsOrdered f) where
  open f use {F, add, sub, mul, div, zero_f, one}

  crossing_of-cases :
      (t : Target) (e : Edge) (nx : F) (s : Screen f)
      → (crossing_of f t e nx s ≡ stays)
        ⊎ (((crossing_of f t e nx s ≡ to_remote) × (t ≡ local))
            ⊎ ((crossing_of f t e nx s ≡ to_local) × (t ≡ remote)))
  unfolding crossing_of
  crossing_of-cases local right nx s = ground arith
  crossing_of-cases local left nx s = ground arith
  crossing_of-cases remote right nx s = ground arith
  crossing_of-cases remote left nx s = ground arith

  reseat-IsMoved :
      (s : Space f) (nx : F) (c : Crossing)
      → AreUsable f o s
      → IsWithin f o s.y (sub (cur_screen f s).height one)
      → (c ≡ stays)
        ⊎ (((c ≡ to_remote) × (s.target ≡ local)) ⊎ ((c ≡ to_local) × (s.target ≡ remote)))
      → (s' : Space f) × (reseat f s nx c ≡ some s') × IsMoved f o s c s'
  unfolding reseat map_y
  reseat-IsMoved s nx stays u w k =
      let (x, e, v) =
        clamp-IsWithin f o nx (sub (cur_screen f s).width one)
          (cur_screen-IsUsable f o s.target s u).wide in
      (
        record s { x = x },
        rw e,
        record {
          inside = record { across = v; down = w };
          same_local = refl;
          same_remote = refl;
          same_edge = refl;
          crosses = refl;
        },
      )
  reseat-IsMoved s nx to_remote u w k =
      let (y, e, v) =
        clamp-IsWithin f o (mul (div s.y s.local_screen.height) s.remote_screen.height)
          (sub s.remote_screen.height one) u.remote_usable.high in
      (
        record s { y = y; x = remote_x f s.edge s.remote_screen; target = remote },
        rw e,
        record {
          inside = record {
            across = remote_x-IsWithin f o s.edge s.remote_screen u.remote_usable;
            down = v;
          };
          same_local = refl;
          same_remote = refl;
          same_edge = refl;
          crosses = (ground arith, refl);
        },
      )
  reseat-IsMoved s nx to_local u w k =
      let (y, e, v) =
        clamp-IsWithin f o (mul (div s.y s.remote_screen.height) s.local_screen.height)
          (sub s.local_screen.height one) u.local_usable.high in
      (
        record s { y = y; x = local_x f s.edge s.local_screen; target = local },
        rw e,
        record {
          inside = record {
            across = local_x-IsWithin f o s.edge s.local_screen u.local_usable;
            down = v;
          };
          same_local = refl;
          same_remote = refl;
          same_edge = refl;
          crosses = (ground arith, refl);
        },
      )

  -- On usable screens any motion is applied without a panic, from any position. The cursor ends
  -- inside the screen of the target, the screens and the edge stay, and the reported crossing is
  -- how the target changed: to the remote screen only from the local one, and back.
  pub apply_delta-IsMoved :
      (s : Space f) (dx dy : F)
      → AreUsable f o s
      → (s' : Space f) × (c : Crossing) × (apply_delta f s dx dy ≡ some (s', c))
        × IsMoved f o s c s'
  unfolding apply_delta
  apply_delta-IsMoved s dx dy u =
      let (y, e, v) =
        clamp-IsWithin f o (add s.y dy) (sub (cur_screen f s).height one)
          (cur_screen-IsUsable f o s.target s u).high in
      let nx = add s.x dx in
      let c = crossing_of f s.target s.edge nx (cur_screen f s) in
      let t : Space f = record s { y = y } in
      let w : AreUsable f o t = record {
        local_usable = u.local_usable;
        remote_usable = u.remote_usable;
      } in
      let (s', r, m) =
        reseat-IsMoved t nx c w v (crossing_of-cases s.target s.edge nx (cur_screen f s)) in
      (
        s',
        c,
        rw (e, r),
        record {
          inside = m.inside;
          same_local = m.same_local;
          same_remote = m.same_remote;
          same_edge = m.same_edge;
          crosses = m.crosses;
        },
      )

  -- On usable screens the cursor can be sent to the remote screen, and back to the local one,
  -- without a panic and from anywhere; it ends inside that screen, on the edge that the two
  -- screens share. On the local screen the forced return changes nothing.
  pub enter_remote-force_local :
      (s : Space f) (local_y : F)
      → AreUsable f o s
      → (there back : Space f) × (enter_remote f s local_y ≡ some there)
        × (force_local f there ≡ some back)
        × IsMoved f o (record s { target = local }) to_remote there
        × IsMoved f o there to_local back
        × (there.x ≡ remote_x f s.edge s.remote_screen)
        × (back.x ≡ local_x f s.edge s.local_screen)
        × (force_local f back ≡ some back)
  unfolding enter_remote force_local map_y
  enter_remote-force_local s local_y u =
      let (y0, e0, v0) =
        clamp-IsWithin f o local_y (sub s.local_screen.height one) u.local_usable.high in
      let (y1, e1, v1) =
        clamp-IsWithin f o (mul (div y0 s.local_screen.height) s.remote_screen.height)
          (sub s.remote_screen.height one) u.remote_usable.high in
      let (y2, e2, v2) =
        clamp-IsWithin f o (mul (div y1 s.remote_screen.height) s.local_screen.height)
          (sub s.local_screen.height one) u.local_usable.high in
      (
        record s { y = y1; x = remote_x f s.edge s.remote_screen; target = remote },
        record s { y = y2; x = local_x f s.edge s.local_screen; target = local },
        rw (e0, e1),
        rw e2,
        record {
          inside = record {
            across = remote_x-IsWithin f o s.edge s.remote_screen u.remote_usable;
            down = v1;
          };
          same_local = refl;
          same_remote = refl;
          same_edge = refl;
          crosses = (refl, refl);
        },
        record {
          inside = record {
            across = local_x-IsWithin f o s.edge s.local_screen u.local_usable;
            down = v2;
          };
          same_local = refl;
          same_remote = refl;
          same_edge = refl;
          crosses = (refl, refl);
        },
        refl,
        refl,
        refl,
      )
