-- ===== src/Shadow/Limits.antt =====
-- The torque of the shadow controller, in every mode and for both overloads of `compute`.
use marine_robotics_hil_sea.Base.{◌≡◌, true, arith}
use marine_robotics_hil_sea.Float.{Double, IsIeee, ◌<?◌, f0, Bounded, limited-Bounded}
use marine_robotics_hil_sea.Shadow.Defs.{
  ShadowPidController, apply_gains, filter_velocity, run_inner_loop, outer_tick, run_outer_loop,
  run_position_only, dispatch, compute, compute_external,
}

module _ {F : Type 0} ⦃d : Double F⦄ (laws : IsIeee F) where
  run_inner_loop-Bounded :
      (vel accel dt : F) (s : ShadowPidController F)
      → (f0 <? s.torque_limit_nm) ≡ true
      → Bounded s.torque_limit_nm (run_inner_loop vel accel dt s).1
  unfolding run_inner_loop
  run_inner_loop-Bounded vel accel dt s h = limited-Bounded laws _ s.torque_limit_nm h

  run_position_only-Bounded :
      (pos_ref position dt : F) (s : ShadowPidController F)
      → (f0 <? s.torque_limit_nm) ≡ true
      → Bounded s.torque_limit_nm (run_position_only pos_ref position dt s).1
  unfolding run_position_only
  run_position_only-Bounded pos_ref position dt s h = limited-Bounded laws _ s.torque_limit_nm h

  run_outer_loop-limit :
      (pos_ref vel position dt : F) (s : ShadowPidController F)
      → (run_outer_loop pos_ref vel position dt s).torque_limit_nm ≡ s.torque_limit_nm
  unfolding run_outer_loop outer_tick
  run_outer_loop-limit pos_ref vel position dt s = ground arith

  dispatch-Bounded :
      (pos_ref vel accel position dt : F) (s : ShadowPidController F)
      → (f0 <? s.torque_limit_nm) ≡ true
      → Bounded s.torque_limit_nm (dispatch pos_ref vel accel position dt s).1
  unfolding dispatch
  dispatch-Bounded pos_ref vel accel position dt s h =
      let outer = run_outer_loop pos_ref vel position dt s in
      ground (
        arith,
        run_outer_loop-limit pos_ref vel position dt s,
        run_inner_loop-Bounded outer.v_cmd accel dt outer,
        run_inner_loop-Bounded vel accel dt (record s { v_cmd = vel }) h,
        run_position_only-Bounded pos_ref position dt s h,
      )

  -- With a positive torque limit the torque of a call is neither below minus the limit nor above
  -- the limit, in every mode and state, on the internal trajectory and on external references.
  pub compute-Bounded :
      (position velocity t dt pos_ref vel_ref : F) (s : ShadowPidController F)
      → (f0 <? s.torque_limit_nm) ≡ true
      → Bounded s.torque_limit_nm (compute position velocity t dt s).1
        × Bounded s.torque_limit_nm (compute_external position velocity pos_ref vel_ref dt s).1
  unfolding compute compute_external apply_gains filter_velocity
  compute-Bounded position velocity t dt pos_ref vel_ref s h =
      (dispatch-Bounded _ _ _ position dt _ h, dispatch-Bounded pos_ref vel_ref f0 position dt _ h)
