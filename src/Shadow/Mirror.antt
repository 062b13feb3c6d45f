-- ===== src/Shadow/Mirror.antt =====
-- The shadow controller with the state of a velocity node: part by part they do the same.
use marine_robotics_hil_sea.Base.{
  ◌≡◌, false, Bool-cases, inl, inr, arith, [], ◌∷◌, String, str_eq, eq_iff, zero, suc,
}
use marine_robotics_hil_sea.Base.Int.{ℤ, pos, negsuc}
use marine_robotics_hil_sea.Float.{Double}
use marine_robotics_hil_sea.Pid
use marine_robotics_hil_sea.Pid.{PidController}
use marine_robotics_hil_sea.Shadow.Defs.{
  ShadowPidController, apply_gains, filter_velocity, run_inner_loop, outer_tick, run_outer_loop,
  run_position_only, dispatch, trajectory,
}
use marine_robotics_hil_sea.Velocity
use marine_robotics_hil_sea.Velocity.{
  VelocityNode, Params, JointState, Publication, torque_command, TrajectoryRef,
}

locate_single : (joint : String) (cached : ℤ) → Velocity.locate (joint ∷ []) cached joint ≡ pos 0
unfolding Velocity.locate Velocity.index_holds Velocity.find_index
locate_single joint (negsuc k) = ground (arith, eq_iff joint joint)
locate_single joint (pos zero) = ground (arith, eq_iff joint joint)
locate_single joint (pos (suc i)) = ground (arith, eq_iff joint joint)

module _ {T F : Type 0} ⦃d : Double F⦄ where
  -- The shadow controller with the gains and the state of a node.
  unfoldable pub shadow_of : VelocityNode T F → ShadowPidController F
  shadow_of v = record {
    control_mode = v.control_mode;
    position_setpoint = position_setpoint;
    amplitude_rad_s = amplitude_rad_s;
    omega_rad_s = omega_rad_s;
    kp = kp;
    ki = ki;
    kd = kd;
    kff = kff;
    kaff = kaff;
    torque_limit_nm = torque_limit_nm;
    integral_limit = integral_limit;
    deadband_rad_s = deadband_rad_s;
    kp_pos = kp_pos;
    ki_pos = ki_pos;
    kd_pos = kd_pos;
    pos_integral_limit = pos_integral_limit;
    pos_output_limit = pos_output_limit;
    outer_loop_divider = outer_loop_divider;
    filter_alpha = filter_alpha;
    vel_pid = v.vel_pid;
    pos_pid = v.pos_pid;
    filtered_vel = v.filtered_vel;
    filter_initialized = v.filter_initialized;
    outer_loop_counter = v.outer_loop_counter;
    outer_dt_accum = v.outer_dt_accum;
    v_cmd = v.v_cmd;
  }
    where
      open v.params use {
        position_setpoint, amplitude_rad_s, omega_rad_s, kp, ki, kd, kff, kaff, torque_limit_nm,
        integral_limit, deadband_rad_s, kp_pos, ki_pos, kd_pos, pos_integral_limit,
        pos_output_limit, outer_loop_divider, filter_alpha,
      }

  -- The node's controllers have the node's gains, as `apply_vel_pid_config` and
  -- `apply_pos_pid_config` leave them.
  pub record IsSynced (v : VelocityNode T F) : Type 0 where
    pub kp_eq : v.vel_pid.kp ≡ v.params.kp
    pub ki_eq : v.vel_pid.ki ≡ v.params.ki
    pub kd_eq : v.vel_pid.kd ≡ v.params.kd
    pub limit_eq : v.vel_pid.integral_limit ≡ v.params.integral_limit
    pub deadband_eq : v.vel_pid.deadband ≡ v.params.deadband_rad_s
    pub kp_pos_eq : v.pos_pid.kp ≡ v.params.kp_pos
    pub ki_pos_eq : v.pos_pid.ki ≡ v.params.ki_pos
    pub kd_pos_eq : v.pos_pid.kd ≡ v.params.kd_pos
    pub pos_limit_eq : v.pos_pid.integral_limit ≡ v.params.pos_integral_limit

  pub apply_gains-shadow_of :
      (v : VelocityNode T F) → IsSynced v → apply_gains (shadow_of v) ≡ shadow_of v
  unfolding apply_gains shadow_of
  apply_gains-shadow_of v h = ground arith

  pub trajectory-shadow_of :
      (v : VelocityNode T F) (t : F)
      → trajectory (shadow_of v) t
        ≡ (let r = Velocity.compute_trajectory v t in (r.pos, r.vel, r.accel))
  unfolding trajectory shadow_of Velocity.compute_trajectory
  trajectory-shadow_of v t = ground arith

  -- The measured values of the node are the ones that the shadow is given.
  pub dispatch-shadow_of :
      (v : VelocityNode T F) (traj : TrajectoryRef F) (dt : F)
      → v.last_measured_vel ≡ v.filtered_vel
      → dispatch traj.pos traj.vel traj.accel v.last_measured_pos dt (shadow_of v)
        ≡ (shadow_of (Velocity.dispatch traj dt v).0, (Velocity.dispatch traj dt v).1)
  unfolding dispatch shadow_of run_inner_loop outer_tick run_outer_loop run_position_only
      Velocity.dispatch Velocity.run_inner_loop Velocity.outer_tick Velocity.run_outer_loop
      Velocity.run_position_only Velocity.feedforward
  dispatch-shadow_of v traj dt same = ground arith

  -- The joint state that the simulation publishes for the node: its one joint.
  abbrev pub sample : VelocityNode T F → F → F → JointState F
  sample v position velocity = record {
    names = v.joint_name ∷ [];
    position = position ∷ [];
    velocity = velocity ∷ [];
  }

  -- A joint state, not inverted, does to the node's filter what `compute` does to the shadow's.
  pub filter-shadow_of :
      (v : VelocityNode T F) (position velocity : F)
      → v.params.invert_output ≡ false
      → filter_velocity velocity (shadow_of v)
        ≡ shadow_of (Velocity.joint_state_callback (sample v position velocity) v)
  unfolding filter_velocity shadow_of Velocity.joint_state_callback Velocity.read_sample
      Velocity.read_velocity Velocity.read_position
  filter-shadow_of v position velocity plain =
      ground (arith, locate_single v.joint_name v.joint_index)

  -- After the joint state the joint is known, and the measured values are the new ones.
  pub record IsMeasured (v v' : VelocityNode T F) (position : F) : Type 0 where
    pub found : v'.joint_index ≡ pos 0
    pub position_eq : v'.last_measured_pos ≡ position
    pub velocity_eq : v'.last_measured_vel ≡ v'.filtered_vel
    pub params_eq : v'.params ≡ v.params
    pub vel_pid_eq : v'.vel_pid ≡ v.vel_pid
    pub pos_pid_eq : v'.pos_pid ≡ v.pos_pid
    pub start_eq : v'.start_time ≡ v.start_time

  pub joint_state_callback-IsMeasured :
      (v : VelocityNode T F) (position velocity : F)
      → v.params.invert_output ≡ false
      → IsMeasured v (Velocity.joint_state_callback (sample v position velocity) v) position
  unfolding Velocity.joint_state_callback Velocity.read_sample Velocity.read_velocity
      Velocity.read_position
  joint_state_callback-IsMeasured v position velocity plain =
      ground (arith, locate_single v.joint_name v.joint_index)

  run_inner_loop-IsSynced :
      (vel accel dt : F) (v : VelocityNode T F)
      → IsSynced v
      → IsSynced (Velocity.run_inner_loop vel accel dt v).0
  unfolding Velocity.run_inner_loop Pid.compute
  run_inner_loop-IsSynced vel accel dt v h = ground arith

  run_position_only-IsSynced :
      (pos_ref dt : F) (v : VelocityNode T F)
      → IsSynced v
      → IsSynced (Velocity.run_position_only pos_ref dt v).0
  unfolding Velocity.run_position_only Pid.compute
  run_position_only-IsSynced pos_ref dt v h = ground arith

  run_outer_loop-IsSynced :
      (pos_ref vel dt : F) (v : VelocityNode T F)
      → IsSynced v
      → IsSynced (Velocity.run_outer_loop pos_ref vel dt v)
  unfolding Velocity.run_outer_loop Velocity.outer_tick Pid.compute
  run_outer_loop-IsSynced pos_ref vel dt v h = ground arith

  -- A timer tick leaves the gains where they are.
  pub dispatch-IsSynced :
      (v : VelocityNode T F) (traj : TrajectoryRef F) (dt : F)
      → IsSynced v
      → IsSynced (Velocity.dispatch traj dt v).0
  unfolding Velocity.dispatch
  dispatch-IsSynced v traj dt h =
      let outer = Velocity.run_outer_loop traj.pos traj.vel dt v in
      let held = run_outer_loop-IsSynced traj.pos traj.vel dt v h in
      let plain = record v { v_cmd = traj.vel } in
      elim (Bool-cases (str_eq v.control_mode "cascade")) [
        | inl e ↦ rw e (run_inner_loop-IsSynced outer.v_cmd traj.accel dt outer held)
        | inr e ↦ rw e (elim (Bool-cases (str_eq v.control_mode "position_only")) [
          | inl e' ↦ rw e' (run_position_only-IsSynced traj.pos dt v h)
          | inr e' ↦ rw e' (run_inner_loop-IsSynced traj.vel traj.accel dt plain (ground arith))
        ])
      ]
