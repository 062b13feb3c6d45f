-- ===== src/Flap/Tests.antt =====
-- Runs of the flap node in the mode `hil`, and its theorems at concrete inputs.
use marine_robotics_hil_sea.Base.{◌≡◌, refl, true, false, none, [], ◌∷◌}
use marine_robotics_hil_sea.Float.{clamp}
use marine_robotics_hil_sea.Float.Fixed.{Fixed, fixed_double}
use marine_robotics_hil_sea.Flap.Defs.{
  FlapNode, feedback_ok, load, ramp_gate, hydro_result, raw_load, compute_load_torque,
}
use marine_robotics_hil_sea.Flap.History.{record_all, last, record_all-last}
use marine_robotics_hil_sea.Samples.{decimal, fixed_clock}

-- The defaults, as the constructor leaves them at time 10, with a fresh joint state.
abbrev started : FlapNode Fixed Fixed
started = record {
  joint_name = "motor_joint";
  publish_dt = decimal 1 2;
  start_time = decimal 10 0;
  hil_constant_load_nm = decimal 1 1;
  hil_virtual_stiffness = decimal 0 0;
  hil_virtual_damping = decimal 0 0;
  hil_quadratic_drag = decimal 0 0;
  hil_wave_amp_nm = decimal 0 0;
  hil_wave_omega_rad_s = decimal 0 0;
  hil_torque_clip_nm = decimal 3 1;
  hil_feedback_timeout_s = decimal 1 1;
  hil_ramp_time_s = decimal 1 0;
  hil_engaged = false;
  hil_ramp_start_time = decimal 10 0;
  hydro_engaged = true;
  clip_engaged_history = [];
  hw_pos = decimal 2 1;
  hw_vel = decimal 1 1;
  hw_stamp = decimal 10 0;
  hw_received = true;
  sim_position = decimal 0 0;
  sim_velocity = decimal 0 0;
  sim_acceleration = decimal 0 0;
}

-- A node that was never engaged publishes the whole load right after its start.
load_before_engaging : load started (decimal 10 0) none ≡ decimal 1 1
unfolding load feedback_ok ramp_gate raw_load hydro_result compute_load_torque clamp
load_before_engaging = refl

record_all-last_example :
    record_all [] (true ∷ false ∷ true ∷ []) ≡ last 100 (true ∷ false ∷ true ∷ [])
record_all-last_example = record_all-last (true ∷ false ∷ true ∷ [])
