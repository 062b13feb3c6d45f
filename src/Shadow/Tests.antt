-- ===== src/Shadow/Tests.antt =====
-- The shadow controller at concrete inputs: the replay of a velocity node, and the torque limit.
use marine_robotics_hil_sea.Base.{◌≡◌, refl, List, [], ◌∷◌}
use marine_robotics_hil_sea.Float.Fixed.{Fixed, fixed_double}
use marine_robotics_hil_sea.Samples.{decimal, fixed_clock}
use marine_robotics_hil_sea.Shadow.Mirror.{shadow_of, IsSynced}
use marine_robotics_hil_sea.Shadow.Replay.{
  shadow_torques, shadow_calls, node_torques, shadow_torques-eq-node_torques,
}
use marine_robotics_hil_sea.Velocity.{VelocityNode, apply_vel_pid_config, apply_pos_pid_config}
use marine_robotics_hil_sea.Velocity.Tests.{node, read_params}

-- A node in the mode `cascade` whose controllers have its gains.
abbrev replayed : VelocityNode Fixed Fixed
replayed = apply_pos_pid_config (
    apply_vel_pid_config
      (record node { params = record read_params { torque_limit_nm = decimal 4 1 } }))

-- Two periods: position, velocity and time.
abbrev periods : List (Fixed × Fixed × Fixed)
periods = (decimal 2 1, decimal 1 1, decimal 1 2) ∷ (decimal 3 1, decimal 2 1, decimal 2 2) ∷ []

replayed-IsSynced : IsSynced replayed
unfolding apply_vel_pid_config apply_pos_pid_config
replayed-IsSynced = record {
  kp_eq = refl;
  ki_eq = refl;
  kd_eq = refl;
  limit_eq = refl;
  deadband_eq = refl;
  kp_pos_eq = refl;
  ki_pos_eq = refl;
  kd_pos_eq = refl;
  pos_limit_eq = refl;
}

shadow_torques-eq-node_torques_example :
    shadow_torques (shadow_of replayed) (shadow_calls replayed periods)
    ≡ node_torques replayed periods
unfolding apply_vel_pid_config apply_pos_pid_config
shadow_torques-eq-node_torques_example =
    shadow_torques-eq-node_torques replayed periods replayed-IsSynced refl
