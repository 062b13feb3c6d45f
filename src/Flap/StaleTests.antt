-- ===== src/Flap/StaleTests.antt =====
-- A joint state that is too old, on the toy world.
use marine_robotics_hil_sea.Base.{◌≡◌, refl, true, false}
use marine_robotics_hil_sea.Flap.Apply.{
  read_settings, read_gains, read_shadow_params, update_flap_inertia, reclip, set_hydro_clip,
  write_value, apply_hil, apply_shadow, apply_one, finish_apply, apply_each, on_apply_parameters,
  set_parameters,
}
use marine_robotics_hil_sea.Flap.Construct.{
  resolve_mode, initial_members, timing_settings, hydro_settings, force_hil, derive_timing,
  read_shadow, read_members, read_hydro_params, attach, start, construct,
}
use marine_robotics_hil_sea.Flap.Defs.{
  on_joint_state, take_sample, on_engage, on_enable_hydro, feedback_ok, hil_pass,
}
use marine_robotics_hil_sea.Flap.Node.{handle, step, run, is_hil}
use marine_robotics_hil_sea.Flap.Simulate.{adapter_step, hil_hydro, hil_node_pass, pass}
use marine_robotics_hil_sea.Flap.State.{
  find_setting, geometry_settings, joint_settings, hil_settings, shadow_settings,
}
use marine_robotics_hil_sea.Flap.Store.{
  get_parameter, get_double, get_string, get_bool, get_int, put_parameter, put_parameters, declared,
}
use marine_robotics_hil_sea.Flap.Feedback.{last_stamp}
use marine_robotics_hil_sea.Flap.Stale.{IsStale, Stands, run-pass-Stands}
use marine_robotics_hil_sea.Flap.Validation.{
  check_shadow_control_mode, check_positive, check_non_negative, check_filter_alpha, validate_one,
  on_validate_parameters,
}
use marine_robotics_hil_sea.Float.Fixed.{fixed_double}
use marine_robotics_hil_sea.Hydro
use marine_robotics_hil_sea.Hydro.Tests.{half}
use marine_robotics_hil_sea.Ros.{contains, validate_each}
use marine_robotics_hil_sea.Samples.{decimal, fixed_clock, toy_chrono}
use marine_robotics_hil_sea.Flap.SimTests.{hil_node, events}

hil_node_mode : (is_hil hil_node ≡ true) × (hil_node.hil.hw_received ≡ false)
unfolding construct read_members read_hydro_params initial_members read_shadow read_shadow_params
    read_gains read_settings timing_settings hydro_settings geometry_settings joint_settings
    hil_settings shadow_settings declared get_string get_bool get_double get_int get_parameter
    put_parameters put_parameter resolve_mode start attach update_flap_inertia derive_timing
    force_hil Hydro.construct Hydro.couple_data Hydro.wave_model_of Hydro.couple
hil_node_mode = (refl, refl)

IsStale-events :
    IsStale
      (run hil_node events).hil.hil_feedback_timeout_s
      (decimal 13 0)
      (last_stamp hil_node.hil.joint_name events)
unfolding construct read_members read_hydro_params initial_members read_shadow read_shadow_params
    read_gains read_settings timing_settings hydro_settings geometry_settings joint_settings
    hil_settings shadow_settings declared get_string get_bool get_double get_int get_parameter
    put_parameters put_parameter resolve_mode start attach update_flap_inertia derive_timing
    force_hil Hydro.construct Hydro.couple_data Hydro.wave_model_of Hydro.couple run step handle
    pass hil_node_pass hil_hydro adapter_step on_joint_state take_sample on_engage on_enable_hydro
    set_parameters on_validate_parameters validate_each validate_one contains
    check_shadow_control_mode check_positive check_non_negative check_filter_alpha
    on_apply_parameters apply_each apply_one apply_shadow apply_hil find_setting write_value
    set_hydro_clip reclip Hydro.set_torque_clip finish_apply feedback_ok hil_pass Hydro.step
IsStale-events = refl

-- The last joint state is of the time 12, and a second old.
run-pass-Stands_example : Stands (run hil_node events) (pass (run hil_node events) (decimal 13 0))
run-pass-Stands_example =
    run-pass-Stands hil_node events (decimal 13 0) hil_node_mode.0 hil_node_mode.1 IsStale-events
