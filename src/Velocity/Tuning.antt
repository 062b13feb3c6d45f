-- ===== src/Velocity/Tuning.antt =====
-- The parameter table: what validation guarantees of every state that the node can reach.
use marine_robotics_hil_sea.Base.{
  ◌≡◌, true, false, inl, inr, Bool-cases, arith, List, [], ◌∷◌, All, some, Option-cases, str_eq,
}
use marine_robotics_hil_sea.Float.{Double, ◌<?◌, f0}
use marine_robotics_hil_sea.Ros.{Parameter, accepted, validate_each, Clock}
use marine_robotics_hil_sea.Velocity.State.{Params, VelocityNode}
use marine_robotics_hil_sea.Velocity.Table.{ParamDef, param_defs}
use marine_robotics_hil_sea.Velocity.Reconfigure.{
  Changed, incoming, run_validator, check_table, write_member, find_def, validate_one,
  on_validate_parameters, apply_table, apply_one, apply_each, finish_apply, on_apply_parameters,
  set_parameters, apply_vel_pid_config, apply_pos_pid_config,
}
use marine_robotics_hil_sea.Velocity.Joint.{
  JointState, joint_state_callback, read_sample, read_position, read_velocity,
}
use marine_robotics_hil_sea.Velocity.Loops.{
  control_loop, control, dispatch, run_inner_loop, run_outer_loop, run_position_only, outer_tick,
}
use marine_robotics_hil_sea.Velocity.Node.{Event, joint_state, parameters, timer, step, run}

module _ {F : Type 0} ⦃d : Double F⦄ where
  -- What the validators of the table keep.
  pub record IsTuned (p : Params F) : Type 0 where
    pub torque_pos : (f0 <? p.torque_limit_nm) ≡ true
    pub pos_integral_pos : (f0 <? p.pos_integral_limit) ≡ true
    pub pos_output_pos : (f0 <? p.pos_output_limit) ≡ true
    pub divider_pos : (f0 <? p.outer_loop_divider) ≡ true
    pub rate_pos : (f0 <? p.rate_hz) ≡ true

  -- A write through the entry, after its validator has accepted the value, keeps `IsTuned`.
  abbrev Guarded : ParamDef F → Type 0
  Guarded def =
      (p : Parameter F) (params params' : Params F)
      → run_validator def.validator (incoming p) ≡ accepted
      → IsTuned params
      → write_member def.member p params ≡ some params'
      → IsTuned params'

param_defs-Guarded : (F : Type 0) ⦃d : Double F⦄ → All Guarded (param_defs {F = F})
unfolding param_defs run_validator incoming write_member
param_defs-Guarded F = ground arith

module _ {F : Type 0} ⦃d : Double F⦄ where
  find_def-Guarded :
      (defs : List (ParamDef F)) (p : Parameter F) {def : ParamDef F} (params params' : Params F)
      → All Guarded defs
      → check_table defs p ≡ accepted
      → find_def defs p.name ≡ some def
      → IsTuned params
      → write_member def.member p params ≡ some params'
      → IsTuned params'
  unfolding check_table find_def
  find_def-Guarded [] p params params' g ok found t w = cc
  find_def-Guarded (e ∷ defs) p {def} params params' (g, gs) ok found t w =
      elim (Bool-cases (str_eq e.name p.name)) [
        | inl here ↦
            let same : e ≡ def = ground arith in g p params params' (ground arith) t (rw same w)
        | inr there ↦
            find_def-Guarded defs p {def = def} params params' gs (ground arith) (ground arith) t w
      ]

abbrev unchanged : Changed
unchanged = record { vel_gains = false; pos_gains = false }

module _ {T F : Type 0} ⦃d : Double F⦄ where
  apply_one-IsTuned :
      (p : Parameter F) (s : VelocityNode T F) (c : Changed) {next : VelocityNode T F × Changed}
      → validate_one p ≡ accepted
      → IsTuned s.params
      → apply_one p (s, c) ≡ some next
      → IsTuned next.0.params
  unfolding apply_one apply_table validate_one
  apply_one-IsTuned p s c {next} ok t h =
      elim (Option-cases (find_def (param_defs {F = F}) p.name)) [
        | inl e ↦ ground arith
        | inr (def, e) ↦ elim (Option-cases (write_member def.member p s.params)) [
          | inl w ↦ ground arith
          | inr (params, w) ↦ ground (
            arith,
            find_def-Guarded param_defs p {def = def} s.params params (param_defs-Guarded F)
                (ground arith) e t w,
          )
        ]
      ]

  apply_each-IsTuned :
      (ps : List (Parameter F)) (s : VelocityNode T F) (c : Changed)
      → validate_each validate_one ps ≡ accepted
      → IsTuned s.params
      → IsTuned (apply_each ps (s, c)).0.params
  unfolding apply_each validate_each
  apply_each-IsTuned [] s c ok t = t
  apply_each-IsTuned (p ∷ ps) s c ok t = elim (Option-cases (apply_one p (s, c))) [
    | inl e ↦ rw (e, apply_each) t
    | inr ((s', c'), e) ↦
        let kept = apply_one-IsTuned p s c {next = (s', c')} (ground arith) t e in
        rw (e, apply_each) (apply_each-IsTuned ps s' c' (ground arith) kept)
  ]

  finish_apply-params :
      (ps : List (Parameter F)) (s : VelocityNode T F) (c : Changed)
      → (finish_apply ps s c).params ≡ s.params
  unfolding finish_apply apply_vel_pid_config apply_pos_pid_config
  finish_apply-params ps s c = ground arith

  on_apply_parameters-IsTuned :
      (ps : List (Parameter F)) (s : VelocityNode T F)
      → validate_each validate_one ps ≡ accepted
      → IsTuned s.params
      → IsTuned (on_apply_parameters ps s).params
  unfolding on_apply_parameters
  on_apply_parameters-IsTuned ps s ok t =
      let kept = apply_each-IsTuned ps s unchanged ok t in
      elim (Option-cases (apply_each ps (s, unchanged)).1) [
        | inl e ↦ rw (e, on_apply_parameters) kept
        | inr (c, e) ↦
            rw (e, on_apply_parameters)
              (rw (finish_apply-params ps (apply_each ps (s, unchanged)).0 c) kept)
      ]

  set_parameters-IsTuned :
      (ps : List (Parameter F)) (s : VelocityNode T F)
      → IsTuned s.params
      → IsTuned (set_parameters ps s).params
  unfolding set_parameters on_validate_parameters
  set_parameters-IsTuned ps s t = ground (arith, on_apply_parameters-IsTuned ps s)

  pub joint_state_callback-params :
      (msg : JointState F) (s : VelocityNode T F) → (joint_state_callback msg s).params ≡ s.params
  unfolding joint_state_callback read_sample read_position read_velocity
  joint_state_callback-params msg s = ground arith

  module _ ⦃clock : Clock T F⦄ where
    pub control_loop-params :
        (s : VelocityNode T F) (now : T) → (control_loop s now).0.params ≡ s.params
    unfolding control_loop control dispatch run_inner_loop run_outer_loop run_position_only
        outer_tick
    control_loop-params s now = ground arith

    step-IsTuned :
        (s : VelocityNode T F) (e : Event T F) → IsTuned s.params → IsTuned (step s e).0.params
    unfolding step
    step-IsTuned s (joint_state msg) t = rw (joint_state_callback-params msg s) t
    step-IsTuned s (parameters ps) t = set_parameters-IsTuned ps s t
    step-IsTuned s (timer now) t = rw (control_loop-params s now) t

    pub run-IsTuned :
        (s : VelocityNode T F) (es : List (Event T F))
        → IsTuned s.params
        → IsTuned (run s es).params
    unfolding run
    run-IsTuned s [] t = t
    run-IsTuned s (e ∷ es) t = run-IsTuned (step s e).0 es (step-IsTuned s e t)
