-- ===== src/Velocity/Reconfigure.antt =====
-- Validation and application of parameter changes, and the configuration of the two controllers.
use Prim.Native.Nat.{bit_and}
use marine_robotics_hil_sea.Base.{
  ℕ, ◌==◌, Bool, true, false, not, ◌||◌, Option, none, some, List, [], ◌∷◌, String, str_eq,
  if◌then◌else◌,
}
use marine_robotics_hil_sea.Base.Int.{pos}
use marine_robotics_hil_sea.Float.{Double, f0}
use marine_robotics_hil_sea.Pid.{reset}
use marine_robotics_hil_sea.Ros.{
  Parameter, is_double, is_string, contains, Verdict, accepted, rejected, threw, immutable,
  must_be_string, must_be_control_mode, ◌and_then◌, validate_each,
}
use marine_robotics_hil_sea.Velocity.State.{Params, VelocityNode}
use marine_robotics_hil_sea.Velocity.Table.{
  ParamValue, double_value, bool_value, Member, double_member, bool_member, ParamDef, reset_vel,
  reset_pos, param_defs,
}

abbrev pub immutable_params : List String
immutable_params = "joint_state_topic" ∷ "command_topic" ∷ "joint_name" ∷ "rate_hz" ∷ []

unfoldable pub is_valid_control_mode : String → Bool
is_valid_control_mode mode =
    str_eq mode "velocity_only" || str_eq mode "cascade" || str_eq mode "position_only"

module _ {F : Type 0} where
  -- The check of the string parameter; the accessor may throw.
  unfoldable pub check_control_mode : Parameter F → Verdict
  check_control_mode p =
      if str_eq p.name "control_mode"
      then (if is_string p.type
          then elim p.as_string [
            | none ↦ threw
            | some mode ↦
                if is_valid_control_mode mode
                then accepted
                else rejected (must_be_control_mode p.name)
          ]
          else rejected (must_be_string p.name))
      else accepted

  -- The value that a validator is given: a double, or else what `as_bool` returns.
  unfoldable pub incoming : Parameter F → Option (ParamValue F)
  incoming p =
      if is_double p.type
      then elim p.as_double [ none ↦ none | some x ↦ some (double_value x) ]
      else elim p.as_bool [ none ↦ none | some b ↦ some (bool_value b) ]

  unfoldable pub run_validator : Option (ParamValue F → Verdict) → Option (ParamValue F) → Verdict
  run_validator none value = accepted
  run_validator (some check) none = threw
  run_validator (some check) (some value) = check value

  unfoldable pub check_table : List (ParamDef F) → Parameter F → Verdict
  check_table [] p = accepted
  check_table (def ∷ defs) p =
      (if str_eq def.name p.name then run_validator def.validator (incoming p) else accepted)
      and_then check_table defs p

  -- The write through the pointer to member; `none` is the exception of the accessor.
  unfoldable pub write_member : Member F → Parameter F → Params F → Option (Params F)
  write_member (double_member read write) p params = elim p.as_double [
    | none ↦ none
    | some x ↦ some (write x params)
  ]
  write_member (bool_member read write) p params = elim p.as_bool [
    | none ↦ none
    | some b ↦ some (write b params)
  ]

  -- The first entry of that name.
  unfoldable pub find_def : List (ParamDef F) → String → Option (ParamDef F)
  find_def [] key = none
  find_def (def ∷ defs) key = if str_eq def.name key then some def else find_def defs key

  unfoldable pub names_divider : List (Parameter F) → Bool
  names_divider [] = false
  names_divider (p ∷ ps) = str_eq p.name "outer_loop_divider" || names_divider ps

-- Which controllers have to be reset.
pub record Changed : Type 0 where
  pub vel_gains : Bool
  pub pos_gains : Bool

abbrev pub has_flag : ℕ → ℕ → Bool
has_flag flags mask = not (bit_and flags mask == 0)

module _ {F : Type 0} ⦃d : Double F⦄ where
  unfoldable pub validate_one : Parameter F → Verdict
  validate_one p =
      if contains immutable_params p.name
      then rejected (immutable p.name)
      else check_control_mode p and_then check_table param_defs p

  unfoldable pub on_validate_parameters : List (Parameter F) → Verdict
  on_validate_parameters = validate_each validate_one

module _ {T F : Type 0} ⦃d : Double F⦄ where
  unfoldable pub apply_vel_pid_config : VelocityNode T F → VelocityNode T F
  apply_vel_pid_config s = record s {
    vel_pid = record vel_pid {
      kp = params.kp;
      ki = params.ki;
      kd = params.kd;
      integral_limit = params.integral_limit;
      deadband = params.deadband_rad_s;
    };
  }
    where
      open s use {params, vel_pid}

  unfoldable pub apply_pos_pid_config : VelocityNode T F → VelocityNode T F
  apply_pos_pid_config s = record s {
    pos_pid = record pos_pid {
      kp = params.kp_pos;
      ki = params.ki_pos;
      kd = params.kd_pos;
      integral_limit = params.pos_integral_limit;
    };
  }
    where
      open s use {params, pos_pid}

  -- The outer loop's counter and accumulated time start again.
  abbrev pub restart_outer : VelocityNode T F → VelocityNode T F
  restart_outer s = record s { outer_loop_counter = pos 0; outer_dt_accum = f0 }

  -- A change of one parameter, with the flags raised so far; `none` is an exception.
  unfoldable pub apply_table :
      Option (ParamDef F)
      → Parameter F
      → VelocityNode T F × Changed
      → Option (VelocityNode T F × Changed)
  apply_table none p (s, c) = some (s, c)
  apply_table (some def) p (s, c) = elim (write_member def.member p s.params) [
    | none ↦ none
    | some params ↦ some (
      record s { params = params },
      record {
        vel_gains = if has_flag def.reset_flags reset_vel then true else c.vel_gains;
        pos_gains = if has_flag def.reset_flags reset_pos then true else c.pos_gains;
      },
    )
  ]

  unfoldable pub apply_one :
      Parameter F → VelocityNode T F × Changed → Option (VelocityNode T F × Changed)
  apply_one p (s, c) =
      if str_eq p.name "control_mode"
      then elim p.as_string [
        | none ↦ none
        | some mode ↦ some (restart_outer (record s { control_mode = mode }), c)
      ]
      else apply_table (find_def param_defs p.name) p (s, c)

  -- The loop over the parameters: the state that was reached, and the flags unless one threw.
  unfoldable pub apply_each :
      List (Parameter F) → VelocityNode T F × Changed → VelocityNode T F × Option Changed
  apply_each [] (s, c) = (s, some c)
  apply_each (p ∷ ps) (s, c) = elim (apply_one p (s, c)) [
    | none ↦ (s, none)
    | some next ↦ apply_each ps next
  ]

  -- After the loop: resets, the two configurations, and the outer loop's restart.
  unfoldable pub finish_apply : List (Parameter F) → VelocityNode T F → Changed → VelocityNode T F
  finish_apply ps s c =
      let s = if c.vel_gains then record s { vel_pid = reset s.vel_pid } else s in
      let s = apply_vel_pid_config s in
      let s = if c.pos_gains then record s { pos_pid = reset s.pos_pid } else s in
      let s = apply_pos_pid_config s in if names_divider ps then restart_outer s else s

  unfoldable pub on_apply_parameters : List (Parameter F) → VelocityNode T F → VelocityNode T F
  on_apply_parameters ps s =
      let (s', c) = apply_each ps (s, record { vel_gains = false; pos_gains = false }) in
      elim c [ none ↦ s' | some c ↦ finish_apply ps s' c ]

  -- rclcpp calls the post-set callback if the validation callback accepted all parameters.
  unfoldable pub set_parameters : List (Parameter F) → VelocityNode T F → VelocityNode T F
  set_parameters ps s = elim (on_validate_parameters ps) [
    | accepted ↦ on_apply_parameters ps s
    | _ ↦ s
  ]
