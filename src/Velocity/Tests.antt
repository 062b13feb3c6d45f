-- ===== src/Velocity/Tests.antt =====
-- Runs of the velocity node, and its theorems at concrete inputs.
use marine_robotics_hil_sea.Base.{◌≡◌, refl, List, [], ◌∷◌, All, false, none, some}
use marine_robotics_hil_sea.Base.Int.{pos}
use marine_robotics_hil_sea.Float.Fixed.{Fixed, Fixed-IsIeee, fixed_double}
use marine_robotics_hil_sea.Ros.{Parameter, ParameterType}
use marine_robotics_hil_sea.Samples.{decimal, fixed_clock}
use marine_robotics_hil_sea.Velocity.State.{Params, VelocityNode}
use marine_robotics_hil_sea.Velocity.Reconfigure.{apply_pos_pid_config, apply_vel_pid_config}
use marine_robotics_hil_sea.Velocity.Joint.{
  JointState, joint_state_callback, locate, index_holds, find_index, read_sample, read_position,
  read_velocity,
}
use marine_robotics_hil_sea.Velocity.Loops.{control_loop}
use marine_robotics_hil_sea.Velocity.Node.{Event, joint_state, parameters, timer, construct, run}
use marine_robotics_hil_sea.Velocity.Tuning.{IsTuned}
use marine_robotics_hil_sea.Velocity.Startup.{construct-run-IsTuned}
use marine_robotics_hil_sea.Velocity.Torque.{TorqueBounded, run-control_loop-TorqueBounded}
use marine_robotics_hil_sea.Velocity.Divider.{OuterCalls}
use marine_robotics_hil_sea.Velocity.Index.{Located, joint_state_callback-Located}

-- What the parameter server returns, with a torque limit of 0 that the constructor replaces.
abbrev pub read_params : Params Fixed
read_params = record {
  amplitude_rad_s = decimal 1 0;
  omega_rad_s = decimal 5 1;
  kp = decimal 35 2;
  ki = decimal 1 2;
  kd = decimal 0 2;
  kff = decimal 40 2;
  kaff = decimal 20 2;
  torque_limit_nm = decimal 0 0;
  integral_limit = decimal 1 0;
  deadband_rad_s = decimal 0 2;
  kp_pos = decimal 2 0;
  ki_pos = decimal 1 2;
  kd_pos = decimal 25 3;
  pos_integral_limit = decimal 1 0;
  pos_output_limit = decimal 2 0;
  outer_loop_divider = decimal 2 0;
  rate_hz = decimal 100 0;
  filter_alpha = decimal 9 1;
  invert_output = false;
  position_setpoint = decimal 1 0;
}

abbrev pub node : VelocityNode Fixed Fixed
node = construct (decimal 0 0) (decimal 0 0) "flap" "cascade" read_params

abbrev pub sensed : JointState Fixed
sensed = record {
  names = "other" ∷ "flap" ∷ [];
  position = decimal 1 0 ∷ decimal 2 1 ∷ [];
  velocity = decimal 1 0 ∷ decimal 3 1 ∷ [];
}

abbrev limit_parameter : Parameter Fixed
limit_parameter = record {
  name = "torque_limit_nm";
  type = ParameterType.double_type;
  as_bool = none;
  as_double = some (decimal 8 1);
  as_string = none;
  as_int = none;
}

-- The callback finds the joint at index 1.
found_at : (joint_state_callback sensed node).joint_index ≡ pos 1
unfolding joint_state_callback construct locate index_holds find_index read_sample read_position
    read_velocity apply_pos_pid_config apply_vel_pid_config
found_at = refl

abbrev events : List (Event Fixed Fixed)
events =
    joint_state sensed
    ∷ timer (decimal 1 2)
    ∷ parameters (limit_parameter ∷ [])
    ∷ timer (decimal 2 2)
    ∷ []

construct-run-IsTuned_example : IsTuned (run node events).params
construct-run-IsTuned_example =
    construct-run-IsTuned Fixed-IsIeee (decimal 0 0) (decimal 0 0) "flap" "cascade" read_params
      events

run-control_loop-TorqueBounded_example :
    All
      (TorqueBounded (run node events).params.torque_limit_nm)
      (control_loop (run node events) (decimal 3 2)).1
run-control_loop-TorqueBounded_example =
    run-control_loop-TorqueBounded Fixed-IsIeee (decimal 0 0) (decimal 0 0) (decimal 3 2) "flap"
      "cascade" read_params events

joint_state_callback-Located_example :
    Located sensed.names node.joint_name (joint_state_callback sensed node).joint_index
joint_state_callback-Located_example = joint_state_callback-Located sensed node

-- A node whose divider is 2, and the first of the two ticks.
abbrev divided : VelocityNode Fixed Fixed
divided = record node { params = read_params }

abbrev waiting_call : OuterCalls Fixed
waiting_call = (decimal 1 0, decimal 0 0, decimal 1 2) ∷ []
