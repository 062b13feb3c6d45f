-- ===== src/Flap/Store.antt =====
-- The parameters of the flap node in rclcpp's store: the declarations of the constructor with their
-- defaults, the accessors, and the update before the apply callback.
use marine_robotics_hil_sea.Base.{
  ℕ, Bool, true, false, Option, none, some, List, [], ◌∷◌, String, str_eq, if◌then◌else◌,
}
use marine_robotics_hil_sea.Base.Int.{ℤ, pos}
use marine_robotics_hil_sea.Float.{Double, f0, lit}
use marine_robotics_hil_sea.Ros.{Parameter, ParameterType}

module _ {F : Type 0} where
  -- The parameter of a name; none is the exception for one that is not declared.
  unfoldable pub get_parameter : List (Parameter F) → String → Option (Parameter F)
  get_parameter [] key = none
  get_parameter (p ∷ ps) key = if str_eq p.name key then some p else get_parameter ps key

  unfoldable pub get_double : List (Parameter F) → String → Option F
  get_double store key = elim (get_parameter store key) [ none ↦ none | some p ↦ p.as_double ]

  unfoldable pub get_string : List (Parameter F) → String → Option String
  get_string store key = elim (get_parameter store key) [ none ↦ none | some p ↦ p.as_string ]

  unfoldable pub get_bool : List (Parameter F) → String → Option Bool
  get_bool store key = elim (get_parameter store key) [ none ↦ none | some p ↦ p.as_bool ]

  unfoldable pub get_int : List (Parameter F) → String → Option ℤ
  get_int store key = elim (get_parameter store key) [ none ↦ none | some p ↦ p.as_int ]

  -- What a change that was accepted leaves in the store.
  unfoldable pub put_parameter : Parameter F → List (Parameter F) → List (Parameter F)
  put_parameter p [] = []
  put_parameter p (q ∷ qs) = if str_eq q.name p.name then p ∷ qs else q ∷ put_parameter p qs

  unfoldable pub put_parameters : List (Parameter F) → List (Parameter F) → List (Parameter F)
  put_parameters [] store = store
  put_parameters (p ∷ ps) store = put_parameters ps (put_parameter p store)

  -- A parameter of each type, with the accessors that do not throw.
  abbrev pub double_parameter : String → F → Parameter F
  double_parameter name x = record {
    name = name;
    type = ParameterType.double_type;
    as_bool = none;
    as_double = some x;
    as_string = none;
    as_int = none;
  }

  abbrev pub bool_parameter : String → Bool → Parameter F
  bool_parameter name b = record {
    name = name;
    type = ParameterType.bool_type;
    as_bool = some b;
    as_double = none;
    as_string = none;
    as_int = none;
  }

  abbrev pub string_parameter : String → String → Parameter F
  string_parameter name s = record {
    name = name;
    type = ParameterType.string_type;
    as_bool = none;
    as_double = none;
    as_string = some s;
    as_int = none;
  }

  abbrev pub int_parameter : String → ℕ → Parameter F
  int_parameter name n = record {
    name = name;
    type = ParameterType.int_type;
    as_bool = none;
    as_double = none;
    as_string = none;
    as_int = some (pos n);
  }

module _ {F : Type 0} ⦃d : Double F⦄ where
  -- The declarations of the constructor.
  unfoldable pub declared : List (Parameter F)
  declared =
      string_parameter "mode" ""
      ∷ bool_parameter "sil_mode" false
      ∷ string_parameter "joint_name" "motor_joint"
      ∷ string_parameter "joint_state_topic" "/joint_states"
      ∷ string_parameter "effort_topic" "/motor_effort_controller/commands"
      ∷ bool_parameter "enable_visualization" false
      ∷ double_parameter "rate_hz" (lit 1000 1)
      ∷ double_parameter "solver_rate_hz" (lit 10000 1)
      ∷ double_parameter "flap_length_m" (lit 30 2)
      ∷ double_parameter "flap_width_m" (lit 30 2)
      ∷ double_parameter "flap_mass_kg" (lit 197 3)
      ∷ double_parameter "joint_damping" f0
      ∷ double_parameter "joint_stiffness" (lit 312441 6)
      ∷ double_parameter "bearing_friction" (lit 1 2)
      ∷ double_parameter "coulomb_friction" f0
      ∷ bool_parameter "use_shadow_pid" true
      ∷ string_parameter "shadow_control_mode" "position_only"
      ∷ bool_parameter "shadow_sync_trajectory" true
      ∷ double_parameter "shadow_position_setpoint" f0
      ∷ double_parameter "shadow_amplitude_rad_s" f0
      ∷ double_parameter "shadow_omega_rad_s" f0
      ∷ double_parameter "shadow_kp" (lit 35 2)
      ∷ double_parameter "shadow_ki" (lit 1 2)
      ∷ double_parameter "shadow_kd" (lit 0 2)
      ∷ double_parameter "shadow_kff" (lit 40 2)
      ∷ double_parameter "shadow_kaff" (lit 20 2)
      ∷ double_parameter "shadow_torque_limit_nm" (lit 40 2)
      ∷ double_parameter "shadow_integral_limit" (lit 0 2)
      ∷ double_parameter "shadow_deadband_rad_s" (lit 0 2)
      ∷ double_parameter "shadow_kp_pos" (lit 200 2)
      ∷ double_parameter "shadow_ki_pos" (lit 1 2)
      ∷ double_parameter "shadow_kd_pos" (lit 25 3)
      ∷ double_parameter "shadow_pos_integral_limit" (lit 100 2)
      ∷ double_parameter "shadow_pos_output_limit" (lit 200 2)
      ∷ double_parameter "shadow_outer_loop_divider" (lit 10 1)
      ∷ double_parameter "shadow_filter_alpha" (lit 90 2)
      ∷ double_parameter "hil_constant_load_nm" (lit 1 1)
      ∷ double_parameter "hil_virtual_stiffness" f0
      ∷ double_parameter "hil_virtual_damping" f0
      ∷ double_parameter "hil_quadratic_drag" f0
      ∷ double_parameter "hil_wave_amp_nm" f0
      ∷ double_parameter "hil_wave_omega_rad_s" f0
      ∷ double_parameter "hil_torque_clip_nm" (lit 3 1)
      ∷ double_parameter "hil_feedback_timeout_s" (lit 1 1)
      ∷ double_parameter "hil_ramp_time_s" (lit 10 1)
      ∷ bool_parameter "hil_engaged_default" false
      ∷ string_parameter "hil_load_topic" "~/load_torque"
      ∷ string_parameter "seastack_h5_path" ""
      ∷ double_parameter "hydro_torque_clip_nm" (lit 2 1)
      ∷ double_parameter "wave_hs_m" f0
      ∷ double_parameter "wave_tp_s" (lit 40 1)
      ∷ int_parameter "wave_seed" 42
      ∷ int_parameter "wave_n_components" 50
      ∷ bool_parameter "hydro_engaged_default" false
      ∷ []
