-- ===== src/Velocity/State.antt =====
-- The members of `class VelocityPidNode`.
use marine_robotics_hil_sea.Base.{Bool, String}
use marine_robotics_hil_sea.Base.Int.{ℤ}
use marine_robotics_hil_sea.Pid.{PidController}

-- The members that the parameter table reads and writes.
pub record Params (F : Type 0) : Type 0 where
  pub amplitude_rad_s : F
  pub omega_rad_s : F
  pub kp : F
  pub ki : F
  pub kd : F
  pub kff : F
  pub kaff : F
  pub torque_limit_nm : F
  pub integral_limit : F
  pub deadband_rad_s : F
  pub kp_pos : F
  pub ki_pos : F
  pub kd_pos : F
  pub pos_integral_limit : F
  pub pos_output_limit : F
  pub outer_loop_divider : F
  pub rate_hz : F
  pub filter_alpha : F
  pub invert_output : Bool
  pub position_setpoint : F

pub record VelocityNode (T F : Type 0) : Type 0 where
  pub params : Params F
  pub control_mode : String
  pub joint_name : String
  pub dt : F
  pub last_measured_vel : F
  pub filtered_vel : F
  pub filter_initialized : Bool
  pub joint_index : ℤ
  pub last_measured_pos : F
  pub start_time : T
  pub last_loop_time : T
  pub outer_loop_counter : ℤ
  pub outer_dt_accum : F
  pub v_cmd : F
  pub vel_pid : PidController F
  pub pos_pid : PidController F
