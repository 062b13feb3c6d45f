-- ===== src/Velocity/Loops.antt =====
-- The trajectory, the inner and outer loop, and `control_loop` with what it publishes.
use marine_robotics_hil_sea.Base.{Bool, true, false, List, [], ◌∷◌, str_eq, if◌then◌else◌}
use marine_robotics_hil_sea.Base.Int.{ℤ, negsuc, ◌+ℤ◌, leb_ℤ}
use marine_robotics_hil_sea.Float.{
  Double, ◌⊕◌, ◌⊖◌, ◌⊗◌, ◌⊘◌, ◌<?◌, abs, sin, cos, f0, f1, lit, limited, at_limit,
}
use marine_robotics_hil_sea.Pid.{compute}
use marine_robotics_hil_sea.Ros.{Clock}
use marine_robotics_hil_sea.Velocity.State.{Params, VelocityNode}

-- `struct TrajectoryRef`
pub record TrajectoryRef (F : Type 0) : Type 0 where
  pub pos : F
  pub vel : F
  pub accel : F

-- A message on one of the node's topics.
pub data Publication (F : Type 0) : Type 0 where
  torque_command desired_velocity measured_velocity velocity_error measured_position position_error
        position_command velocity_command :
      F → Publication F

abbrev pub joint_missing : ℤ → Bool
joint_missing (ℤ.pos i) = false
joint_missing (negsuc i) = true

module _ {F : Type 0} ⦃d : Double F⦄ where
  -- Feedforward only with proportional feedback.
  unfoldable pub feedforward : Params F → F → F → F
  feedforward p vel_setpoint accel_ff =
      if f0 <? p.kp then p.kff ⊗ vel_setpoint ⊕ p.kaff ⊗ accel_ff else f0

module _ {T F : Type 0} ⦃d : Double F⦄ where
  unfoldable pub compute_trajectory : VelocityNode T F → F → TrajectoryRef F
  compute_trajectory s t =
      if lit 1 9 <? abs omega_rad_s
      then record {
        pos =
            if str_eq s.control_mode "velocity_only"
            then position_setpoint
            else position_setpoint ⊕ (amplitude_rad_s ⊘ omega_rad_s) ⊗ (f1 ⊖ cos (omega_rad_s ⊗ t));
        vel = amplitude_rad_s ⊗ sin (omega_rad_s ⊗ t);
        accel = amplitude_rad_s ⊗ omega_rad_s ⊗ cos (omega_rad_s ⊗ t);
      }
      else record { pos = position_setpoint; vel = f0; accel = f0 }
    where
      open s.params use {amplitude_rad_s, omega_rad_s, position_setpoint}

  unfoldable pub run_inner_loop : F → F → F → VelocityNode T F → VelocityNode T F × F
  run_inner_loop vel_setpoint accel_ff dt s =
      let (pid, pid_out) = compute s.vel_pid vel_setpoint s.last_measured_vel dt in
      let limit = s.params.torque_limit_nm in
      let torque = limited (pid_out ⊕ feedforward s.params vel_setpoint accel_ff) limit in
      (record s { vel_pid = record pid { saturated = at_limit torque limit } }, torque)

  -- The position controller on the time that has accumulated, and the new velocity command.
  unfoldable pub outer_tick : F → F → VelocityNode T F → VelocityNode T F
  outer_tick pos_ref vel_ff s =
      let (pid, pid_out) = compute s.pos_pid pos_ref s.last_measured_pos s.outer_dt_accum in
      let limit = s.params.pos_output_limit in
      let v_cmd = limited (pid_out ⊕ vel_ff) limit in
      record s {
        outer_loop_counter = ℤ.pos 0;
        v_cmd = v_cmd;
        pos_pid = record pid { saturated = at_limit v_cmd limit };
        outer_dt_accum = f0;
      }

  unfoldable pub run_outer_loop : F → F → F → VelocityNode T F → VelocityNode T F
  run_outer_loop pos_ref vel_ff dt s =
      let counter = s.outer_loop_counter +ℤ ℤ.pos 1 in
      let counted = record s {
        outer_dt_accum = s.outer_dt_accum ⊕ dt;
        outer_loop_counter = counter;
      } in
      if leb_ℤ (d.round_int s.params.outer_loop_divider) counter
      then outer_tick pos_ref vel_ff counted
      else counted

  -- The branch `position_only`: the outer controller commands the torque.
  unfoldable pub run_position_only : F → F → VelocityNode T F → VelocityNode T F × F
  run_position_only pos_ref dt s =
      let (pid, pid_out) = compute s.pos_pid pos_ref s.last_measured_pos dt in
      let limit = s.params.torque_limit_nm in
      let torque = limited pid_out limit in
      (record s { pos_pid = record pid { saturated = at_limit torque limit }; v_cmd = f0 }, torque)

  -- The dispatch on the mode: the state, the torque and the velocity error.
  unfoldable pub dispatch : TrajectoryRef F → F → VelocityNode T F → VelocityNode T F × F × F
  dispatch traj dt s =
      if str_eq s.control_mode "cascade"
      then (let s = run_outer_loop traj.pos traj.vel dt s in
          let (s', torque) = run_inner_loop s.v_cmd traj.accel dt s in
          (s', torque, s'.v_cmd ⊖ s'.last_measured_vel))
      else if str_eq s.control_mode "position_only"
      then (let (s', torque) = run_position_only traj.pos dt s in (s', torque, f0))
      else (let s = record s { v_cmd = traj.vel } in
          let (s', torque) = run_inner_loop traj.vel traj.accel dt s in
          (s', torque, traj.vel ⊖ s'.last_measured_vel))

  unfoldable pub publish_diagnostics : F → F → F → F → VelocityNode T F → List (Publication F)
  publish_diagnostics vel_ref vel_error pos_ref pos_error s =
      desired_velocity vel_ref
      ∷ measured_velocity s.last_measured_vel
      ∷ velocity_error vel_error
      ∷ measured_position s.last_measured_pos
      ∷ position_error pos_error
      ∷ position_command pos_ref
      ∷ velocity_command s.v_cmd
      ∷ []

  module _ ⦃clock : Clock T F⦄ where
    -- The time step: the elapsed time, or the nominal period where that is not positive.
    unfoldable pub time_step : VelocityNode T F → T → F
    time_step s now =
        let actual_dt = clock.since now s.last_loop_time in
        if f0 <? actual_dt then actual_dt else s.dt

    unfoldable pub control : VelocityNode T F → T → VelocityNode T F × List (Publication F)
    control s now =
        let dt = time_step s now in
        let s = record s { last_loop_time = now } in
        let traj = compute_trajectory s (clock.since now s.start_time) in
        let pos_error = traj.pos ⊖ s.last_measured_pos in
        let (s', torque, vel_error) = dispatch traj dt s in
        (s', torque_command torque ∷ publish_diagnostics traj.vel vel_error traj.pos pos_error s')

    unfoldable pub control_loop : VelocityNode T F → T → VelocityNode T F × List (Publication F)
    control_loop s now =
        if joint_missing s.joint_index then (s, torque_command f0 ∷ []) else control s now
