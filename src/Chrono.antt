-- ===== src/Chrono.antt =====
-- What the flap simulation sees of Project Chrono (not part of the repository): the world of type W,
-- with the flap's body and the motor that turns it. The y axis is the pivot.
use marine_robotics_hil_sea.Base.{ℕ}

pub record Chrono (W F : Type 0) : Type 0 where
  -- `GetMotorAngle`, `GetMotorAngleDt` of the motor, and `GetPos` of the flap.
  pub motor_angle : W → F
  pub motor_angle_dt : W → F
  pub position : W → F × F × F
  -- `SetSetpoint` of the torque function at the world's time, and `DoStepDynamics`.
  pub set_setpoint : F → W → W
  pub do_step_dynamics : F → W → W
  -- `SetMass`, `SetInertiaXX`, `SetPos`, `SetPosDt`, `SetAngVelParent` of the flap, and `SetRot` to a
  -- rotation about the pivot.
  pub set_mass : F → W → W
  pub set_inertia_xx : F → F → F → W → W
  pub set_pos : F → F → F → W → W
  pub set_pos_dt : F → F → F → W → W
  pub set_ang_vel_parent : F → F → F → W → W
  pub set_rot_about_pivot : F → W → W
  -- `AddAccumulator`, `EmptyAccumulator` and `AccumulateTorque` of the flap, in the parent's frame.
  pub add_accumulator : W → ℕ × W
  pub empty_accumulator : ℕ → W → W
  pub accumulate_torque : ℕ → F → F → F → W → W
