-- ===== src/Velocity/Node.antt =====
-- The constructor, the destructor, and the node as a sequence of events.
use marine_robotics_hil_sea.Base.{false, none, some, List, [], ◌∷◌, String, if◌then◌else◌}
use marine_robotics_hil_sea.Base.Int.{pos, negsuc}
use marine_robotics_hil_sea.Float.{Double, ◌⊘◌, f0, f1}
use marine_robotics_hil_sea.Pid.{fresh}
use marine_robotics_hil_sea.Ros.{Clock, Parameter, Verdict}
use marine_robotics_hil_sea.Velocity.State.{Params, VelocityNode}
use marine_robotics_hil_sea.Velocity.Table.{
  ParamValue, double_value, bool_value, Member, double_member, bool_member, ParamDef, param_defs,
}
use marine_robotics_hil_sea.Velocity.Reconfigure.{
  is_valid_control_mode, apply_vel_pid_config, apply_pos_pid_config, set_parameters,
}
use marine_robotics_hil_sea.Velocity.Joint.{JointState, joint_state_callback}
use marine_robotics_hil_sea.Velocity.Loops.{Publication, torque_command, control_loop}

-- What reaches the node while it runs.
pub data Event (T F : Type 0) : Type 0 where
  joint_state : JointState F → Event T F
  parameters : List (Parameter F) → Event T F
  timer : T → Event T F

module _ {F : Type 0} where
  unfoldable pub get_member_value : Member F → Params F → ParamValue F
  get_member_value (double_member read write) p = double_value (read p)
  get_member_value (bool_member read write) p = bool_value (read p)

  -- The default of an entry has the type of its member.
  unfoldable pub write_default : Member F → ParamValue F → Params F → Params F
  write_default (double_member read write) (double_value x) p = write x p
  write_default (bool_member read write) (bool_value b) p = write b p
  write_default _ _ p = p

  -- The value that was read stays if its validator accepts it, and is replaced by the default if
  -- the validator refuses.
  unfoldable pub startup_validate : ParamDef F → Params F → Params F
  startup_validate def p = elim def.validator [
    | none ↦ p
    | some check ↦ elim (check (get_member_value def.member p)) [
      | Verdict.rejected r ↦ write_default def.member def.default_value p
      | _ ↦ p
    ]
  ]

  unfoldable pub startup : List (ParamDef F) → Params F → Params F
  startup [] p = p
  startup (def ∷ defs) p = startup defs (startup_validate def p)

module _ {T F : Type 0} ⦃d : Double F⦄ where
  -- `read` are the values of the parameter server; the clock is read for `last_loop_time_` and, at the
  -- end, for `start_time_`.
  unfoldable pub construct : (loop_time now : T) → String → String → Params F → VelocityNode T F
  construct loop_time now joint_name mode read =
      let p = startup param_defs read in
      apply_pos_pid_config (
        apply_vel_pid_config (record {
          params = p;
          control_mode = if is_valid_control_mode mode then mode else "position_only";
          joint_name = joint_name;
          dt = f1 ⊘ p.rate_hz;
          last_measured_vel = f0;
          filtered_vel = f0;
          filter_initialized = false;
          joint_index = negsuc 0;
          last_measured_pos = f0;
          start_time = now;
          last_loop_time = loop_time;
          outer_loop_counter = pos 0;
          outer_dt_accum = f0;
          v_cmd = f0;
          vel_pid = fresh;
          pos_pid = fresh;
        }))

  -- The destructor's last command.
  unfoldable pub shutdown : VelocityNode T F → List (Publication F)
  shutdown s = torque_command f0 ∷ []

  module _ ⦃clock : Clock T F⦄ where
    unfoldable pub step : VelocityNode T F → Event T F → VelocityNode T F × List (Publication F)
    step s (joint_state msg) = (joint_state_callback msg s, [])
    step s (parameters ps) = (set_parameters ps s, [])
    step s (timer now) = control_loop s now

    unfoldable pub run : VelocityNode T F → List (Event T F) → VelocityNode T F
    run s [] = s
    run s (e ∷ es) = run (step s e).0 es
