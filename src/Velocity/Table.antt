-- ===== src/Velocity/Table.antt =====
-- `param_defs_`: one entry for each tunable parameter, with its validator and its reset flags.
use marine_robotics_hil_sea.Base.{
  ℕ, Bool, false, ◌&&◌, Option, none, some, List, [], ◌∷◌, String, if◌then◌else◌,
}
use marine_robotics_hil_sea.Float.{Double, ◌<?◌, ◌≤?◌, f0, f1, lit}
use marine_robotics_hil_sea.Ros.{
  Verdict, accepted, rejected, threw, must_be_positive, must_be_unit_range,
}
use marine_robotics_hil_sea.Velocity.State.{Params}

-- `std::variant<double, bool>`
pub data ParamValue (F : Type 0) : Type 0 where
  double_value : F → ParamValue F
  bool_value : Bool → ParamValue F

-- `std::variant` of the two pointers to members: how to read and write the member.
pub data Member (F : Type 0) : Type 0 where
  double_member : (Params F → F) → (F → Params F → Params F) → Member F
  bool_member : (Params F → Bool) → (Bool → Params F → Params F) → Member F

pub record ParamDef (F : Type 0) : Type 0 where
  pub name : String
  pub default_value : ParamValue F
  pub member : Member F
  pub validator : Option (ParamValue F → Verdict)
  pub reset_flags : ℕ

abbrev pub reset_vel : ℕ
reset_vel = 1

abbrev pub reset_pos : ℕ
reset_pos = 2

module _ {F : Type 0} ⦃d : Double F⦄ where
  -- `std::get<double>` throws at a bool.
  abbrev pub positive_validator : String → ParamValue F → Verdict
  positive_validator name (double_value x) =
      if f0 <? x then accepted else rejected (must_be_positive name)
  positive_validator name (bool_value b) = threw

  abbrev pub unit_range_validator : String → ParamValue F → Verdict
  unit_range_validator name (double_value x) =
      if (f0 ≤? x) && (x <? f1) then accepted else rejected (must_be_unit_range name)
  unit_range_validator name (bool_value b) = threw

  abbrev pub entry :
      String
      → F
      → (Params F → F)
      → (F → Params F → Params F)
      → Option (ParamValue F → Verdict)
      → ℕ
      → ParamDef F
  entry name x read write validator flags = record {
    name = name;
    default_value = double_value x;
    member = double_member read write;
    validator = validator;
    reset_flags = flags;
  }

  abbrev free : Option (ParamValue F → Verdict)
  free = none

  abbrev pub positive : String → Option (ParamValue F → Verdict)
  positive name = some (positive_validator name)

  unfoldable pub param_defs : List (ParamDef F)
  param_defs =
      entry "amplitude_rad_s" (lit 0 2) (λ p. p.amplitude_rad_s)
        (λ x p. record p { amplitude_rad_s = x }) free 0
      ∷ entry "omega_rad_s" (lit 0 2) (λ p. p.omega_rad_s) (λ x p. record p { omega_rad_s = x })
          free 0
      ∷ entry "kp" (lit 35 2) (λ p. p.kp) (λ x p. record p { kp = x }) free reset_vel
      ∷ entry "ki" (lit 1 2) (λ p. p.ki) (λ x p. record p { ki = x }) free reset_vel
      ∷ entry "kd" (lit 0 2) (λ p. p.kd) (λ x p. record p { kd = x }) free reset_vel
      ∷ entry "kff" (lit 40 2) (λ p. p.kff) (λ x p. record p { kff = x }) free reset_vel
      ∷ entry "kaff" (lit 20 2) (λ p. p.kaff) (λ x p. record p { kaff = x }) free reset_vel
      ∷ entry "torque_limit_nm" (lit 40 2) (λ p. p.torque_limit_nm)
          (λ x p. record p { torque_limit_nm = x }) (positive "torque_limit_nm") 0
      ∷ entry "integral_limit" (lit 0 2) (λ p. p.integral_limit)
          (λ x p. record p { integral_limit = x }) (positive "integral_limit") 0
      ∷ entry "deadband_rad_s" (lit 0 2) (λ p. p.deadband_rad_s)
          (λ x p. record p { deadband_rad_s = x }) free 0
      ∷ entry "kp_pos" (lit 200 2) (λ p. p.kp_pos) (λ x p. record p { kp_pos = x }) free reset_pos
      ∷ entry "ki_pos" (lit 1 2) (λ p. p.ki_pos) (λ x p. record p { ki_pos = x }) free reset_pos
      ∷ entry "kd_pos" (lit 25 3) (λ p. p.kd_pos) (λ x p. record p { kd_pos = x }) free reset_pos
      ∷ entry "pos_integral_limit" (lit 100 2) (λ p. p.pos_integral_limit)
          (λ x p. record p { pos_integral_limit = x }) (positive "pos_integral_limit") 0
      ∷ entry "pos_output_limit" (lit 200 2) (λ p. p.pos_output_limit)
          (λ x p. record p { pos_output_limit = x }) (positive "pos_output_limit") 0
      ∷ entry "outer_loop_divider" (lit 100 2) (λ p. p.outer_loop_divider)
          (λ x p. record p { outer_loop_divider = x }) (positive "outer_loop_divider") 0
      ∷ entry "rate_hz" (lit 1000 1) (λ p. p.rate_hz) (λ x p. record p { rate_hz = x })
          (positive "rate_hz") 0
      ∷ entry "filter_alpha" (lit 90 2) (λ p. p.filter_alpha) (λ x p. record p { filter_alpha = x })
          (some (unit_range_validator "filter_alpha")) 0
      ∷ record {
        name = "invert_output";
        default_value = bool_value false;
        member = bool_member (λ p. p.invert_output) (λ b p. record p { invert_output = b });
        validator = none;
        reset_flags = 0;
      }
      ∷ entry "position_setpoint" (lit 0 2) (λ p. p.position_setpoint)
          (λ x p. record p { position_setpoint = x }) free 0
      ∷ []
