-- ===== src/Flap/Validation.antt =====
-- `on_validate_parameters` of the flap node: the checks of one parameter in their order.
use marine_robotics_hil_sea.Base.{
  Bool, ◌||◌, none, some, List, [], ◌∷◌, String, str_eq, if◌then◌else◌,
}
use marine_robotics_hil_sea.Float.{Double, ◌<?◌, ◌≤?◌, f0, f1}
use marine_robotics_hil_sea.Ros.{
  Parameter, is_double, is_string, contains, Verdict, accepted, rejected, threw, immutable,
  must_be_positive, must_be_non_negative, must_be_unit_range, must_be_control_mode, ◌and_then◌,
  validate_each,
}

abbrev pub immutable_params : List String
immutable_params =
    "rate_hz" ∷ "solver_rate_hz" ∷ "effort_topic" ∷ "sil_mode" ∷ "mode" ∷ "joint_name"
    ∷ "joint_state_topic" ∷ "hil_load_topic" ∷ "seastack_h5_path" ∷ "wave_hs_m" ∷ "wave_tp_s"
    ∷ "wave_seed" ∷ "wave_n_components" ∷ "hydro_engaged_default" ∷ []

abbrev pub geometry_params : List String
geometry_params = "flap_length_m" ∷ "flap_mass_kg" ∷ "flap_width_m" ∷ []

abbrev pub joint_params : List String
joint_params = "joint_damping" ∷ "joint_stiffness" ∷ "bearing_friction" ∷ "coulomb_friction" ∷ []

abbrev pub shadow_positive : List String
shadow_positive =
    "shadow_torque_limit_nm" ∷ "shadow_pos_integral_limit" ∷ "shadow_pos_output_limit"
    ∷ "shadow_outer_loop_divider" ∷ []

abbrev pub hil_positive_params : List String
hil_positive_params = "hil_torque_clip_nm" ∷ "hil_feedback_timeout_s" ∷ "hydro_torque_clip_nm" ∷ []

abbrev pub hil_non_negative_params : List String
hil_non_negative_params =
    "hil_virtual_stiffness" ∷ "hil_virtual_damping" ∷ "hil_quadratic_drag" ∷ "hil_wave_amp_nm"
    ∷ "hil_wave_omega_rad_s" ∷ "hil_ramp_time_s" ∷ []

unfoldable pub is_valid_control_mode : String → Bool
is_valid_control_mode mode =
    str_eq mode "velocity_only" || str_eq mode "cascade" || str_eq mode "position_only"

module _ {F : Type 0} where
  -- The refusal of a wrong type and of a wrong mode have the same message.
  unfoldable pub check_shadow_control_mode : Parameter F → Verdict
  check_shadow_control_mode p =
      if str_eq p.name "shadow_control_mode"
      then (if is_string p.type
          then elim p.as_string [
            | none ↦ threw
            | some mode ↦
                if is_valid_control_mode mode
                then accepted
                else rejected (must_be_control_mode p.name)
          ]
          else rejected (must_be_control_mode p.name))
      else accepted

module _ {F : Type 0} ⦃d : Double F⦄ where
  -- `type != PARAMETER_DOUBLE || as_double() <= 0.0`, for the names of a list.
  unfoldable pub check_positive : List String → Parameter F → Verdict
  check_positive names p =
      if contains names p.name
      then (if is_double p.type
          then elim p.as_double [
            | none ↦ threw
            | some x ↦ if x ≤? f0 then rejected (must_be_positive p.name) else accepted
          ]
          else rejected (must_be_positive p.name))
      else accepted

  unfoldable pub check_non_negative : List String → Parameter F → Verdict
  check_non_negative names p =
      if contains names p.name
      then (if is_double p.type
          then elim p.as_double [
            | none ↦ threw
            | some x ↦ if x <? f0 then rejected (must_be_non_negative p.name) else accepted
          ]
          else rejected (must_be_non_negative p.name))
      else accepted

  -- The accessor is called before the test of the type.
  unfoldable pub check_filter_alpha : Parameter F → Verdict
  check_filter_alpha p =
      if str_eq p.name "shadow_filter_alpha"
      then elim p.as_double [
        | none ↦ threw
        | some v ↦
            if is_double p.type
            then (if (v <? f0) || (f1 ≤? v) then rejected (must_be_unit_range p.name) else accepted)
            else rejected (must_be_unit_range p.name)
      ]
      else accepted

  unfoldable pub validate_one : Parameter F → Verdict
  validate_one p =
      if contains immutable_params p.name
      then rejected (immutable p.name)
      else check_shadow_control_mode p
        and_then (check_positive geometry_params p
            and_then (check_non_negative joint_params p
                and_then (check_positive shadow_positive p
                    and_then (check_filter_alpha p
                        and_then (check_positive hil_positive_params p
                            and_then check_non_negative hil_non_negative_params p)))))

  unfoldable pub on_validate_parameters : List (Parameter F) → Verdict
  on_validate_parameters = validate_each validate_one
