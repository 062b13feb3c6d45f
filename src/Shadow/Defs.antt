-- ===== src/Shadow/Defs.antt =====
-- `class ShadowPidController`: its fields, `reset`, `apply_gains`, the loops, and both overloads of
-- `compute`.
use marine_robotics_hil_sea.Base.{Bool, true, false, String, str_eq, if◌then◌else◌}
use marine_robotics_hil_sea.Base.Int.{ℤ, pos, ◌+ℤ◌, leb_ℤ}
use marine_robotics_hil_sea.Float.{
  Double, ◌⊕◌, ◌⊖◌, ◌⊗◌, ◌⊘◌, ◌<?◌, abs, sin, cos, f0, f1, lit, limited, at_limit,
}
use marine_robotics_hil_sea.Pid
use marine_robotics_hil_sea.Pid.{PidController}

pub record ShadowPidController (F : Type 0) : Type 0 where
  pub control_mode : String
  pub position_setpoint : F
  pub amplitude_rad_s : F
  pub omega_rad_s : F
  pub kp : F
  pub ki : F
  pub kd : F
  pub kff : F
  pub kaff : F
  pub torque_limit_nm : F
  pub integral_limit : F
  pub deadband_rad_s : F
  pub kp_pos : F
  pub ki_pos : F
  pub kd_pos : F
  pub pos_integral_limit : F
  pub pos_output_limit : F
  pub outer_loop_divider : F
  pub filter_alpha : F
  pub vel_pid : PidController F
  pub pos_pid : PidController F
  pub filtered_vel : F
  pub filter_initialized : Bool
  pub outer_loop_counter : ℤ
  pub outer_dt_accum : F
  pub v_cmd : F

module _ {F : Type 0} ⦃d : Double F⦄ where
  unfoldable pub reset : ShadowPidController F → ShadowPidController F
  reset s = record s {
    vel_pid = Pid.reset s.vel_pid;
    pos_pid = Pid.reset s.pos_pid;
    filtered_vel = f0;
    filter_initialized = false;
    outer_loop_counter = pos 0;
    outer_dt_accum = f0;
    v_cmd = f0;
  }

  -- Copies the public gains into the two controllers, at the start of every `compute`.
  unfoldable pub apply_gains : ShadowPidController F → ShadowPidController F
  apply_gains s = record s {
    vel_pid = record vel_pid {
      kp = s.kp;
      ki = s.ki;
      kd = s.kd;
      integral_limit = s.integral_limit;
      deadband = s.deadband_rad_s;
    };
    pos_pid = record pos_pid {
      kp = s.kp_pos;
      ki = s.ki_pos;
      kd = s.kd_pos;
      integral_limit = s.pos_integral_limit;
    };
  }
    where
      open s use {vel_pid, pos_pid}

  unfoldable pub filter_velocity : F → ShadowPidController F → ShadowPidController F
  filter_velocity sim_velocity s = record s {
    filtered_vel =
        if s.filter_initialized
        then s.filter_alpha ⊗ s.filtered_vel ⊕ (f1 ⊖ s.filter_alpha) ⊗ sim_velocity
        else sim_velocity;
    filter_initialized = true;
  }

  unfoldable pub run_inner_loop : F → F → F → ShadowPidController F → ShadowPidController F × F
  run_inner_loop vel_setpoint accel_ff dt s =
      let (pid, pid_out) = Pid.compute s.vel_pid vel_setpoint s.filtered_vel dt in
      let ff = if f0 <? s.kp then s.kff ⊗ vel_setpoint ⊕ s.kaff ⊗ accel_ff else f0 in
      let torque = limited (pid_out ⊕ ff) s.torque_limit_nm in
      (record s { vel_pid = record pid { saturated = at_limit torque s.torque_limit_nm } }, torque)

  unfoldable pub outer_tick : F → F → F → ShadowPidController F → ShadowPidController F
  outer_tick pos_ref vel_ff sim_position s =
      let (pid, pid_out) = Pid.compute s.pos_pid pos_ref sim_position s.outer_dt_accum in
      let v_cmd = limited (pid_out ⊕ vel_ff) s.pos_output_limit in
      record s {
        outer_loop_counter = pos 0;
        v_cmd = v_cmd;
        pos_pid = record pid { saturated = at_limit v_cmd s.pos_output_limit };
        outer_dt_accum = f0;
      }

  unfoldable pub run_outer_loop : F → F → F → F → ShadowPidController F → ShadowPidController F
  run_outer_loop pos_ref vel_ff sim_position dt s =
      let counter = s.outer_loop_counter +ℤ pos 1 in
      let counted = record s {
        outer_dt_accum = s.outer_dt_accum ⊕ dt;
        outer_loop_counter = counter;
      } in
      if leb_ℤ (d.round_int s.outer_loop_divider) counter
      then outer_tick pos_ref vel_ff sim_position counted
      else counted

  unfoldable pub run_position_only : F → F → F → ShadowPidController F → ShadowPidController F × F
  run_position_only pos_ref sim_position dt s =
      let (pid, pid_out) = Pid.compute s.pos_pid pos_ref sim_position dt in
      let torque = limited pid_out s.torque_limit_nm in
      (
        record s {
          pos_pid = record pid { saturated = at_limit torque s.torque_limit_nm };
          v_cmd = f0;
        },
        torque,
      )

  -- The dispatch on the mode, which both overloads of `compute` spell out.
  unfoldable pub dispatch :
      (pos_ref vel_ref accel_ref sim_position dt : F)
      → ShadowPidController F
      → ShadowPidController F × F
  dispatch pos_ref vel_ref accel_ref sim_position dt s =
      if str_eq s.control_mode "cascade"
      then (let s = run_outer_loop pos_ref vel_ref sim_position dt s in
          run_inner_loop s.v_cmd accel_ref dt s)
      else if str_eq s.control_mode "position_only"
      then run_position_only pos_ref sim_position dt s
      else run_inner_loop vel_ref accel_ref dt (record s { v_cmd = vel_ref })

  -- The references of the internal trajectory: position, velocity and acceleration.
  unfoldable pub trajectory : ShadowPidController F → F → F × F × F
  trajectory s t =
      if lit 1 9 <? abs omega_rad_s
      then (
        if str_eq s.control_mode "velocity_only"
            then position_setpoint
            else position_setpoint ⊕ (amplitude_rad_s ⊘ omega_rad_s) ⊗ (f1 ⊖ cos (omega_rad_s ⊗ t)),
        amplitude_rad_s ⊗ sin (omega_rad_s ⊗ t),
        amplitude_rad_s ⊗ omega_rad_s ⊗ cos (omega_rad_s ⊗ t),
      )
      else (position_setpoint, f0, f0)
    where
      open s use {position_setpoint, amplitude_rad_s, omega_rad_s}

  -- `compute` on the internal trajectory.
  unfoldable pub compute :
      (sim_position sim_velocity t dt : F) → ShadowPidController F → ShadowPidController F × F
  compute sim_position sim_velocity t dt s =
      let s = filter_velocity sim_velocity (apply_gains s) in
      let (pos_ref, vel_ref, accel_ref) = trajectory s t in
      dispatch pos_ref vel_ref accel_ref sim_position dt s

  -- `compute` on external references; the acceleration feedforward is 0.
  unfoldable pub compute_external :
      (sim_position sim_velocity pos_ref vel_ref dt : F)
      → ShadowPidController F
      → ShadowPidController F × F
  compute_external sim_position sim_velocity pos_ref vel_ref dt s =
      let s = filter_velocity sim_velocity (apply_gains s) in
      dispatch pos_ref vel_ref f0 sim_position dt s
