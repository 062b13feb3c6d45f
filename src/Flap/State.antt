-- ===== src/Flap/State.antt =====
-- The members of `class ChronoFlapNode`, and the tables of those that a parameter sets.
use marine_robotics_hil_sea.Base.{
  Bool, Option, none, some, List, [], ◌∷◌, String, str_eq, if◌then◌else◌,
}
use marine_robotics_hil_sea.Base.Int.{ℤ}
use marine_robotics_hil_sea.Flap.Defs.{FlapNode}
use marine_robotics_hil_sea.Hydro.{Adapter}
use marine_robotics_hil_sea.Ros.{Parameter}
use marine_robotics_hil_sea.Shadow.{ShadowPidController}

-- `hil` has the members that the mode hil uses, `store` the parameters, `world` Chrono's objects.
pub record FlapSim (T F W V K : Type 0) : Type 0 where
  pub hil : FlapNode T F
  pub mode : String
  pub use_shadow_pid : Bool
  pub shadow_sync_trajectory : Bool
  pub rate_hz : F
  pub solver_rate_hz : F
  pub solver_dt : F
  pub substeps : ℤ
  pub flap_length : F
  pub flap_width : F
  pub flap_mass : F
  pub joint_damping : F
  pub joint_stiffness : F
  pub bearing_friction : F
  pub coulomb_friction : F
  pub shadow_ext_pos_ref : F
  pub shadow_ext_vel_ref : F
  pub shadow_pos_ref_received : Bool
  pub shadow_vel_ref_received : Bool
  pub shadow_pid : ShadowPidController F
  pub latest_torque : F
  pub hydro_torque_clip_nm : F
  pub hydro_adapter : Option (Adapter V K F)
  pub store : List (Parameter F)
  pub world : W

-- A parameter of type double with the member of S that it sets.
pub record Setting (S F : Type 0) : Type 0 where
  pub name : String
  pub write : F → S → S

-- The first entry of a name.
unfoldable pub find_setting : {S F : Type 0} → List (Setting S F) → String → Option (Setting S F)
find_setting [] key = none
find_setting (e ∷ es) key = if str_eq e.name key then some e else find_setting es key

abbrev pub set : {S F : Type 0} → String → (F → S → S) → Setting S F
set name write = record { name = name; write = write }

module _ {T F W V K : Type 0} where
  -- The parameters of the flap's body.
  unfoldable pub geometry_settings : List (Setting (FlapSim T F W V K) F)
  geometry_settings =
      set "flap_length_m" (λ x s. record s { flap_length = x })
      ∷ set "flap_width_m" (λ x s. record s { flap_width = x })
      ∷ set "flap_mass_kg" (λ x s. record s { flap_mass = x })
      ∷ []

  unfoldable pub joint_settings : List (Setting (FlapSim T F W V K) F)
  joint_settings =
      set "joint_damping" (λ x s. record s { joint_damping = x })
      ∷ set "joint_stiffness" (λ x s. record s { joint_stiffness = x })
      ∷ set "bearing_friction" (λ x s. record s { bearing_friction = x })
      ∷ set "coulomb_friction" (λ x s. record s { coulomb_friction = x })
      ∷ []

  unfoldable pub hil_settings : List (Setting (FlapSim T F W V K) F)
  hil_settings =
      set "hil_constant_load_nm"
        (λ x s. record s { hil = record s.hil { hil_constant_load_nm = x } })
      ∷ set "hil_virtual_stiffness"
          (λ x s. record s { hil = record s.hil { hil_virtual_stiffness = x } })
      ∷ set "hil_virtual_damping"
          (λ x s. record s { hil = record s.hil { hil_virtual_damping = x } })
      ∷ set "hil_quadratic_drag" (λ x s. record s { hil = record s.hil { hil_quadratic_drag = x } })
      ∷ set "hil_wave_amp_nm" (λ x s. record s { hil = record s.hil { hil_wave_amp_nm = x } })
      ∷ set "hil_wave_omega_rad_s"
          (λ x s. record s { hil = record s.hil { hil_wave_omega_rad_s = x } })
      ∷ set "hil_torque_clip_nm" (λ x s. record s { hil = record s.hil { hil_torque_clip_nm = x } })
      ∷ set "hil_feedback_timeout_s"
          (λ x s. record s { hil = record s.hil { hil_feedback_timeout_s = x } })
      ∷ set "hil_ramp_time_s" (λ x s. record s { hil = record s.hil { hil_ramp_time_s = x } })
      ∷ []

module _ {F : Type 0} where
  -- The doubles that `read_shadow_params` copies, in its order.
  unfoldable pub shadow_settings : List (Setting (ShadowPidController F) F)
  shadow_settings =
      set "shadow_position_setpoint" (λ x c. record c { position_setpoint = x })
      ∷ set "shadow_amplitude_rad_s" (λ x c. record c { amplitude_rad_s = x })
      ∷ set "shadow_omega_rad_s" (λ x c. record c { omega_rad_s = x })
      ∷ set "shadow_kp" (λ x c. record c { kp = x })
      ∷ set "shadow_ki" (λ x c. record c { ki = x })
      ∷ set "shadow_kd" (λ x c. record c { kd = x })
      ∷ set "shadow_kff" (λ x c. record c { kff = x })
      ∷ set "shadow_kaff" (λ x c. record c { kaff = x })
      ∷ set "shadow_torque_limit_nm" (λ x c. record c { torque_limit_nm = x })
      ∷ set "shadow_integral_limit" (λ x c. record c { integral_limit = x })
      ∷ set "shadow_deadband_rad_s" (λ x c. record c { deadband_rad_s = x })
      ∷ set "shadow_kp_pos" (λ x c. record c { kp_pos = x })
      ∷ set "shadow_ki_pos" (λ x c. record c { ki_pos = x })
      ∷ set "shadow_kd_pos" (λ x c. record c { kd_pos = x })
      ∷ set "shadow_pos_integral_limit" (λ x c. record c { pos_integral_limit = x })
      ∷ set "shadow_pos_output_limit" (λ x c. record c { pos_output_limit = x })
      ∷ set "shadow_outer_loop_divider" (λ x c. record c { outer_loop_divider = x })
      ∷ set "shadow_filter_alpha" (λ x c. record c { filter_alpha = x })
      ∷ []
