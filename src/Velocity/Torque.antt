-- ===== src/Velocity/Torque.antt =====
-- The torque that the control loop commands, in every mode.
use marine_robotics_hil_sea.Base.{◌≡◌, true, Bool-cases, inl, inr, arith, List, All, String}
use marine_robotics_hil_sea.Float.{Double, IsIeee, ◌<?◌, f0, Bounded, limited-Bounded, zero-Bounded}
use marine_robotics_hil_sea.Ros.{Clock}
use marine_robotics_hil_sea.Velocity.State.{Params, VelocityNode}
use marine_robotics_hil_sea.Velocity.Loops.{
  TrajectoryRef, Publication, torque_command, control_loop, control, dispatch, run_inner_loop,
  run_outer_loop, run_position_only, outer_tick, publish_diagnostics, compute_trajectory, time_step,
  joint_missing,
}
use marine_robotics_hil_sea.Velocity.Node.{construct, Event, run}
use marine_robotics_hil_sea.Velocity.Startup.{construct-run-IsTuned}

module _ {F : Type 0} ⦃d : Double F⦄ where
  -- A torque command is within the limit; the other topics carry what they carry.
  abbrev pub TorqueBounded : F → Publication F → Type 0
  TorqueBounded limit (torque_command x) = Bounded limit x
  TorqueBounded limit _ = Unit {0}

module _ {T F : Type 0} ⦃d : Double F⦄ (laws : IsIeee F) where
  run_inner_loop-Bounded :
      (vel accel dt : F) (s : VelocityNode T F)
      → (f0 <? s.params.torque_limit_nm) ≡ true
      → Bounded s.params.torque_limit_nm (run_inner_loop vel accel dt s).1
  unfolding run_inner_loop
  run_inner_loop-Bounded vel accel dt s h = limited-Bounded laws _ s.params.torque_limit_nm h

  run_position_only-Bounded :
      (pos_ref dt : F) (s : VelocityNode T F)
      → (f0 <? s.params.torque_limit_nm) ≡ true
      → Bounded s.params.torque_limit_nm (run_position_only pos_ref dt s).1
  unfolding run_position_only
  run_position_only-Bounded pos_ref dt s h = limited-Bounded laws _ s.params.torque_limit_nm h

  run_outer_loop-params :
      (pos_ref vel dt : F) (s : VelocityNode T F)
      → (run_outer_loop pos_ref vel dt s).params ≡ s.params
  unfolding run_outer_loop outer_tick
  run_outer_loop-params pos_ref vel dt s = ground arith

  dispatch-Bounded :
      (traj : TrajectoryRef F) (dt : F) (s : VelocityNode T F)
      → (f0 <? s.params.torque_limit_nm) ≡ true
      → Bounded s.params.torque_limit_nm (dispatch traj dt s).1
  unfolding dispatch
  dispatch-Bounded traj dt s h =
      let outer = run_outer_loop traj.pos traj.vel dt s in
      let held = run_inner_loop-Bounded outer.v_cmd traj.accel dt outer in
      let plain = record s { v_cmd = traj.vel } in
      ground (
        arith,
        run_outer_loop-params traj.pos traj.vel dt s,
        held,
        run_inner_loop-Bounded traj.vel traj.accel dt plain h,
        run_position_only-Bounded traj.pos dt s h,
      )

  module _ ⦃clock : Clock T F⦄ where
    control-Bounded :
        (s : VelocityNode T F) (now : T)
        → (f0 <? s.params.torque_limit_nm) ≡ true
        → All (TorqueBounded s.params.torque_limit_nm) (control s now).1
    unfolding control publish_diagnostics
    control-Bounded s now h =
        let s' = record s { last_loop_time = now } in
        let traj = compute_trajectory s' (clock.since now s.start_time) in
        (dispatch-Bounded traj (time_step s now) s' h, (tt, (tt, (tt, (tt, (tt, (tt, (tt, tt))))))))

    pub control_loop-Bounded :
        (s : VelocityNode T F) (now : T)
        → (f0 <? s.params.torque_limit_nm) ≡ true
        → All (TorqueBounded s.params.torque_limit_nm) (control_loop s now).1
    unfolding control_loop
    control_loop-Bounded s now h = elim (Bool-cases (joint_missing s.joint_index)) [
      | inl e ↦ rw e (zero-Bounded laws s.params.torque_limit_nm h, tt)
      | inr e ↦ rw e (control-Bounded s now h)
    ]

    -- In every state that the node reaches from its constructor, each torque command that a timer
    -- tick publishes is neither below minus the torque limit nor above the limit.
    pub run-control_loop-TorqueBounded :
        (loop_time start now : T) (joint mode : String) (read : Params F) (es : List (Event T F))
        → All
            (TorqueBounded
              (run (construct loop_time start joint mode read) es).params.torque_limit_nm)
            (control_loop (run (construct loop_time start joint mode read) es) now).1
    run-control_loop-TorqueBounded loop_time start now joint mode read es =
        control_loop-Bounded (run (construct loop_time start joint mode read) es) now
          (construct-run-IsTuned laws loop_time start joint mode read es).torque_pos
