-- ===== src/Flap/ShadowTests.antt =====
-- The shadow controller in the mode parallel, on the toy world.
use marine_robotics_hil_sea.Hydro
use marine_robotics_hil_sea.Shadow
use marine_robotics_hil_sea.Base.{ℕ, ◌≡◌, refl, true, false, List, [], ◌∷◌, All, arith}
use mathlib.Core.Path.{subst}
use marine_robotics_hil_sea.Flap.Apply.{
  read_settings, read_gains, read_shadow_params, update_flap_inertia, reclip, set_hydro_clip,
  write_value, apply_hil, apply_shadow, apply_one, finish_apply, apply_each, on_apply_parameters,
  set_parameters,
}
use marine_robotics_hil_sea.Flap.Construct.{
  resolve_mode, initial_members, timing_settings, hydro_settings, force_hil, derive_timing,
  read_shadow, read_members, read_hydro_params, attach, start, construct,
}
use marine_robotics_hil_sea.Flap.Defs.{
  on_joint_state, take_sample, on_engage, on_enable_hydro, feedback_ok, hil_pass,
}
use marine_robotics_hil_sea.Flap.Node.{
  Event, parameters, tick, handle, step, run, position_command, velocity_command,
}
use marine_robotics_hil_sea.Flap.Simulate.{
  adapter_step, hil_hydro, hil_node_pass, pass, sim_pass, torque_command, shadow_step,
}
use marine_robotics_hil_sea.Flap.State.{
  FlapSim, find_setting, geometry_settings, joint_settings, hil_settings, shadow_settings,
}
use marine_robotics_hil_sea.Flap.Store.{
  get_parameter, get_double, get_string, get_bool, get_int, put_parameter, put_parameters,
  double_parameter, string_parameter, declared,
}
use marine_robotics_hil_sea.Flap.Validation.{
  is_valid_control_mode, check_shadow_control_mode, check_positive, check_non_negative,
  check_filter_alpha, validate_one, on_validate_parameters,
}
use marine_robotics_hil_sea.Float.{is_nan}
use marine_robotics_hil_sea.Float.Fixed.{Fixed, Fixed-IsIeee, fixed_double}
use marine_robotics_hil_sea.Hydro.Tests.{half}
use marine_robotics_hil_sea.Ros.{contains, validate_each}
use marine_robotics_hil_sea.Samples.{decimal, fixed_clock, World, toy_chrono}
use marine_robotics_hil_sea.Shadow.{ShadowPidController}
use marine_robotics_hil_sea.Flap.ShadowLimit.{IsLimited}
use marine_robotics_hil_sea.Flap.ShadowTorque.{ShadowBounded, run-pass-ShadowBounded}
use marine_robotics_hil_sea.Flap.Held.{Held}
use marine_robotics_hil_sea.Flap.ShadowMembers.{run-members}
use marine_robotics_hil_sea.Flap.ShadowStore.{StoreTuned, ControllerTuned}
use marine_robotics_hil_sea.Flap.SimTests.{hil_node, hil_node-IsValid}
use marine_robotics_hil_sea.Flap.Tuning.{IsValid}
use marine_robotics_hil_sea.Flap.StoreLimit.{StoreLimited}

abbrev parallel_node : FlapSim Fixed Fixed World ℕ ℕ
parallel_node = record hil_node {
  mode = "parallel";
  use_shadow_pid = true;
  shadow_sync_trajectory = true;
}

-- The limit is lowered, and one of 0 is refused.
abbrev events : List (Event Fixed Fixed)
events =
    parameters (double_parameter "shadow_torque_limit_nm" (decimal 2 1) ∷ [])
    ∷ parameters (double_parameter "shadow_torque_limit_nm" (decimal 0 0) ∷ [])
    ∷ position_command (decimal 3 0)
    ∷ velocity_command (decimal 1 0)
    ∷ tick (decimal 12 0)
    ∷ []

parallel_node-IsLimited : IsLimited parallel_node
unfolding StoreLimited construct read_members read_hydro_params initial_members read_shadow
    read_shadow_params read_gains read_settings timing_settings hydro_settings geometry_settings
    joint_settings hil_settings shadow_settings declared get_string get_bool get_double get_int
    get_parameter put_parameters put_parameter resolve_mode start attach update_flap_inertia
    derive_timing force_hil Hydro.construct Hydro.couple_data Hydro.wave_model_of Hydro.couple
    Shadow.reset
parallel_node-IsLimited = record {
  store_limited = λ x found. ground (arith, found);
  limited = refl;
}

limit_after_events : (run parallel_node events).shadow_pid.torque_limit_nm ≡ decimal 2 1
unfolding construct read_members read_hydro_params initial_members read_shadow read_shadow_params
    read_gains read_settings timing_settings hydro_settings geometry_settings joint_settings
    hil_settings shadow_settings declared get_string get_bool get_double get_int get_parameter
    put_parameters put_parameter resolve_mode start attach update_flap_inertia derive_timing
    force_hil Hydro.construct Hydro.couple_data Hydro.wave_model_of Hydro.couple run step handle
    pass hil_node_pass hil_hydro adapter_step on_joint_state take_sample on_engage on_enable_hydro
    set_parameters on_validate_parameters validate_each validate_one contains
    check_shadow_control_mode check_positive check_non_negative check_filter_alpha
    on_apply_parameters apply_each apply_one apply_shadow apply_hil find_setting write_value
    set_hydro_clip reclip Hydro.set_torque_clip finish_apply feedback_ok hil_pass Hydro.step
    sim_pass torque_command shadow_step Shadow.compute_external Shadow.dispatch
    Shadow.run_position_only Shadow.filter_velocity Shadow.apply_gains Shadow.reset
    is_valid_control_mode
limit_after_events = refl

real_limit : is_nan (run parallel_node events).shadow_pid.torque_limit_nm ≡ false
real_limit = rw limit_after_events refl

run-pass-ShadowBounded_example :
    All
      (ShadowBounded (run parallel_node events))
      (pass (run parallel_node events) (decimal 1205 2)).1
run-pass-ShadowBounded_example =
    run-pass-ShadowBounded Fixed-IsIeee parallel_node events (decimal 1205 2)
      parallel_node-IsLimited real_limit

-- The mode of the controller is changed, a mode that does not exist is refused, and so is an alpha of 1.
abbrev mode_events : List (Event Fixed Fixed)
mode_events =
    parameters (string_parameter "shadow_control_mode" "cascade" ∷ [])
    ∷ parameters (string_parameter "shadow_control_mode" "manual" ∷ [])
    ∷ parameters (double_parameter "shadow_filter_alpha" (decimal 1 0) ∷ [])
    ∷ tick (decimal 12 0)
    ∷ []

parallel_node-IsValid : IsValid parallel_node
parallel_node-IsValid = ground (arith, hil_node-IsValid)

parallel_node-Held : Held StoreTuned ControllerTuned parallel_node
unfolding construct read_members read_hydro_params initial_members read_shadow read_shadow_params
    read_gains read_settings timing_settings hydro_settings geometry_settings joint_settings
    hil_settings shadow_settings declared get_string get_bool get_double get_int get_parameter
    put_parameters put_parameter resolve_mode start attach update_flap_inertia derive_timing
    force_hil Hydro.construct Hydro.couple_data Hydro.wave_model_of Hydro.couple Shadow.reset
    is_valid_control_mode
parallel_node-Held = record {
  stored = record {
    torque_limit = λ x found. ground (arith, found);
    integral_limit = λ x found. ground (arith, found);
    output_limit = λ x found. ground (arith, found);
    divider = λ x found. ground (arith, found);
    alpha = λ x found. ground (arith, found);
    mode = λ m found.
        let same : "position_only" ≡ m = ground (arith, found) in
        subst (λ n. is_valid_control_mode n ≡ true) same refl;
  };
  held = record {
    torque_limit = refl;
    integral_limit = refl;
    output_limit = refl;
    divider = refl;
    alpha = (refl, refl);
    mode = refl;
  };
}

run-members_example :
    IsValid (run parallel_node mode_events)
    × Held StoreTuned ControllerTuned (run parallel_node mode_events)
run-members_example =
    run-members Fixed-IsIeee parallel_node mode_events parallel_node-IsValid parallel_node-Held
