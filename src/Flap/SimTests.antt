-- ===== src/Flap/SimTests.antt =====
-- The whole node on the toy world: its constructor, a run in the mode hil, and a pass in the mode sil.
use marine_robotics_hil_sea.Base.{ℕ, ◌≡◌, refl, true, false, List, [], ◌∷◌, All}
use marine_robotics_hil_sea.Base.Int.{pos}
use marine_robotics_hil_sea.Flap.Apply.{
  read_settings, read_gains, read_shadow_params, update_flap_inertia, reclip, set_hydro_clip,
  write_value, apply_hil, apply_shadow, apply_one, finish_apply, apply_each, on_apply_parameters,
  set_parameters,
}
use marine_robotics_hil_sea.Flap.Clips.{LoadClipped, run-pass-LoadClipped}
use marine_robotics_hil_sea.Flap.Construct.{
  resolve_mode, initial_members, timing_settings, hydro_settings, force_hil, derive_timing,
  read_shadow, read_members, read_hydro_params, attach, start, construct,
}
use marine_robotics_hil_sea.Flap.Defs.{
  on_joint_state, take_sample, on_engage, on_enable_hydro, feedback_ok, hil_pass,
}
use marine_robotics_hil_sea.Flap.Node.{
  Event, hw_joint_state, engage_request, enable_hydro_request, parameters, tick, handle, step, run,
}
use marine_robotics_hil_sea.Flap.Setup.{constructed}
use marine_robotics_hil_sea.Flap.Simulate.{
  total_torque, substep, substep_loop, adapter_step, hil_hydro, hil_node_pass, pass,
}
use marine_robotics_hil_sea.Flap.State.{
  FlapSim, find_setting, geometry_settings, joint_settings, hil_settings, shadow_settings,
}
use marine_robotics_hil_sea.Flap.Store.{
  get_parameter, get_double, get_string, get_bool, get_int, put_parameter, put_parameters,
  double_parameter, string_parameter, declared,
}
use marine_robotics_hil_sea.Flap.Tuning.{IsValid, AdapterClipped}
use marine_robotics_hil_sea.Flap.Validation.{
  check_shadow_control_mode, check_positive, check_non_negative, check_filter_alpha, validate_one,
  on_validate_parameters,
}
use marine_robotics_hil_sea.Float.{f0, f1, is_nan}
use marine_robotics_hil_sea.Float.Fixed.{Fixed, Fixed-IsIeee, fixed_double}
use marine_robotics_hil_sea.Hydro
use marine_robotics_hil_sea.Hydro.Tests.{library, half, any_file}
use marine_robotics_hil_sea.Pid
use marine_robotics_hil_sea.Ros.{Parameter, contains, validate_each}
use marine_robotics_hil_sea.Samples.{decimal, fixed_clock, World, toy_chrono, at_rest}
use marine_robotics_hil_sea.Shadow.{ShadowPidController}

abbrev controller : ShadowPidController Fixed
controller = record {
  control_mode = "position_only";
  position_setpoint = f0;
  amplitude_rad_s = f0;
  omega_rad_s = f0;
  kp = f0;
  ki = f0;
  kd = f0;
  kff = f0;
  kaff = f0;
  torque_limit_nm = f0;
  integral_limit = f0;
  deadband_rad_s = f0;
  kp_pos = f0;
  ki_pos = f0;
  kd_pos = f0;
  pos_integral_limit = f0;
  pos_output_limit = f0;
  outer_loop_divider = f1;
  filter_alpha = f0;
  vel_pid = Pid.fresh;
  pos_pid = Pid.fresh;
  filtered_vel = f0;
  filter_initialized = false;
  outer_loop_counter = pos 0;
  outer_dt_accum = f0;
  v_cmd = f0;
}

-- The parameters of a node in the mode hil, with a file of hydrodynamic data.
abbrev hil_store : List (Parameter Fixed)
hil_store =
    put_parameters
      (string_parameter "mode" "hil" ∷ string_parameter "seastack_h5_path" "oswec.h5" ∷ []) declared

abbrev pub hil_node : FlapSim Fixed Fixed World ℕ ℕ
hil_node =
    constructed
      (construct library any_file (decimal 0 0) (decimal 10 0) controller hil_store at_rest)
      (initial_members (decimal 0 0) controller hil_store at_rest)

pub hil_node-IsValid : IsValid hil_node
unfolding construct read_members read_hydro_params initial_members read_shadow read_shadow_params
    read_gains read_settings timing_settings hydro_settings geometry_settings joint_settings
    hil_settings shadow_settings declared get_string get_bool get_double get_int get_parameter
    put_parameters put_parameter resolve_mode start attach update_flap_inertia derive_timing
    force_hil Hydro.construct Hydro.couple_data Hydro.wave_model_of Hydro.couple AdapterClipped
hil_node-IsValid = record {
  clip_pos = refl;
  timeout_pos = refl;
  hydro_clip_pos = refl;
  length_pos = refl;
  width_pos = refl;
  mass_pos = refl;
  damping_nonneg = refl;
  stiffness_nonneg = refl;
  bearing_nonneg = refl;
  coulomb_nonneg = refl;
  virtual_stiffness_nonneg = refl;
  virtual_damping_nonneg = refl;
  drag_nonneg = refl;
  amp_nonneg = refl;
  omega_nonneg = refl;
  ramp_nonneg = refl;
  adapter_clipped = refl;
}

pub hil_node_clip : is_nan hil_node.hil.hil_torque_clip_nm ≡ false
unfolding construct read_members read_hydro_params initial_members read_shadow read_shadow_params
    read_gains read_settings timing_settings hydro_settings geometry_settings joint_settings
    hil_settings shadow_settings declared get_string get_bool get_double get_int get_parameter
    put_parameters put_parameter resolve_mode start attach update_flap_inertia derive_timing
    force_hil Hydro.construct Hydro.couple_data Hydro.wave_model_of Hydro.couple AdapterClipped
hil_node_clip = refl

-- The node is engaged and sees a joint state; a clip of 0 is refused, one of 0.25 taken; and the
-- adapter replaces the stub's load.
abbrev pub events : List (Event Fixed Fixed)
events =
    engage_request true (decimal 10 0)
    ∷ hw_joint_state (record {
      names = "flap" ∷ "motor_joint" ∷ [];
      position = decimal 0 0 ∷ decimal 1 1 ∷ [];
      velocity = [];
      stamp = decimal 12 0;
    })
    ∷ parameters (double_parameter "hil_torque_clip_nm" (decimal 0 0) ∷ [])
    ∷ parameters (
        double_parameter "hil_torque_clip_nm" (decimal 25 2)
        ∷ double_parameter "hydro_torque_clip_nm" (decimal 4 1)
        ∷ [])
    ∷ enable_hydro_request true
    ∷ tick (decimal 12 0)
    ∷ []

clip_after_events : (run hil_node events).hil.hil_torque_clip_nm ≡ decimal 25 2
unfolding construct read_members read_hydro_params initial_members read_shadow read_shadow_params
    read_gains read_settings timing_settings hydro_settings geometry_settings joint_settings
    hil_settings shadow_settings declared get_string get_bool get_double get_int get_parameter
    put_parameters put_parameter resolve_mode start attach update_flap_inertia derive_timing
    force_hil Hydro.construct Hydro.couple_data Hydro.wave_model_of Hydro.couple run step handle
    pass hil_node_pass hil_hydro adapter_step on_joint_state take_sample on_engage on_enable_hydro
    set_parameters on_validate_parameters validate_each validate_one contains
    check_shadow_control_mode check_positive check_non_negative check_filter_alpha
    on_apply_parameters apply_each apply_one apply_shadow apply_hil find_setting write_value
    set_hydro_clip reclip Hydro.set_torque_clip finish_apply feedback_ok hil_pass Hydro.step
clip_after_events = refl

real_clip : is_nan (run hil_node events).hil.hil_torque_clip_nm ≡ false
real_clip = rw clip_after_events refl

run-pass-LoadClipped_example :
    All (LoadClipped (run hil_node events)) (pass (run hil_node events) (decimal 1205 2)).1
run-pass-LoadClipped_example =
    run-pass-LoadClipped Fixed-IsIeee hil_node events (decimal 1205 2) hil_node-IsValid real_clip

-- In the mode sil without the shadow controller, two substeps of a spring: the torque command less
-- the torque of the joint.
abbrev sil_node : FlapSim Fixed Fixed World ℕ ℕ
sil_node = record hil_node {
  mode = "sil";
  use_shadow_pid = false;
  latest_torque = decimal 1 0;
  joint_stiffness = decimal 0 0;
  bearing_friction = decimal 0 0;
  substeps = pos 2;
  solver_dt = decimal 5 1;
}

sil_pass_world : substep_loop 2 sil_node (decimal 1 0) at_rest ≡ record {
  angle = decimal 25 2;
  speed = decimal 1 0;
  setpoint = decimal 1 0;
  accumulated = decimal 0 0;
}
unfolding substep_loop substep total_torque construct read_members read_hydro_params initial_members
    read_shadow read_shadow_params read_gains read_settings timing_settings hydro_settings
    geometry_settings joint_settings hil_settings shadow_settings declared get_string get_bool
    get_double get_int get_parameter put_parameters put_parameter resolve_mode start attach
    update_flap_inertia derive_timing force_hil Hydro.construct Hydro.couple_data
    Hydro.wave_model_of Hydro.couple
sil_pass_world = refl
