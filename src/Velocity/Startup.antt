-- ===== src/Velocity/Startup.antt =====
-- The start-up validation of the parameter table, and what it leaves of the limits whose defaults
-- their validators accept.
use marine_robotics_hil_sea.Base.{
  ℕ, zero, suc, ◌≡◌, refl, true, arith, List, [], ◌∷◌, All, drop, get_elem?, some, String,
}
use marine_robotics_hil_sea.Float.{Double, IsIeee, ◌<?◌, f0}
use marine_robotics_hil_sea.Ros.{Clock}
use marine_robotics_hil_sea.Velocity.State.{Params}
use marine_robotics_hil_sea.Velocity.Table.{ParamDef, param_defs}
use marine_robotics_hil_sea.Velocity.Reconfigure.{apply_vel_pid_config, apply_pos_pid_config}
use marine_robotics_hil_sea.Velocity.Node.{
  construct, startup, startup_validate, get_member_value, write_default, Event, run,
}
use marine_robotics_hil_sea.Velocity.Tuning.{IsTuned, run-IsTuned}

module _ {F : Type 0} ⦃d : Double F⦄ (P : Params F → Type 0) where
  -- The entry makes `P` true; the entry leaves it true.
  abbrev Settles : ParamDef F → Type 0
  Settles def = (p : Params F) → P (startup_validate def p)

  abbrev Keeps : ParamDef F → Type 0
  Keeps def = (p : Params F) → P p → P (startup_validate def p)

  startup_keeps :
      (defs : List (ParamDef F)) (p : Params F) → All Keeps defs → P p → P (startup defs p)
  unfolding startup
  startup_keeps [] p k h = h
  startup_keeps (def ∷ defs) p (k, ks) h = startup_keeps defs (startup_validate def p) ks (k p h)

  startup_settles :
      (defs : List (ParamDef F)) (i : ℕ) (p : Params F) {def : ParamDef F}
      → get_elem? defs i ≡ some def
      → Settles def
      → All Keeps (drop (suc i) defs)
      → P (startup defs p)
  unfolding startup
  startup_settles [] i p found s k = cc
  startup_settles (e ∷ defs) zero p found s k =
      startup_keeps defs (startup_validate e p) k (ground (arith, s p))
  startup_settles (e ∷ defs) (suc i) p found s k =
      startup_settles defs i (startup_validate e p) found s k

module _ {F : Type 0} ⦃d : Double F⦄ (laws : IsIeee F) where
  startup-IsTuned : (p : Params F) → IsTuned (startup param_defs p)
  unfolding startup_validate param_defs get_member_value write_default
  startup-IsTuned p = record {
    torque_pos =
        startup_settles (λ q. (f0 <? q.torque_limit_nm) ≡ true) param_defs 7 p refl
          (λ q. ground (arith, laws.lit_pos 39 2 (omega arith))) (ground arith);
    pos_integral_pos =
        startup_settles (λ q. (f0 <? q.pos_integral_limit) ≡ true) param_defs 13 p refl
          (λ q. ground (arith, laws.lit_pos 99 2 (omega arith))) (ground arith);
    pos_output_pos =
        startup_settles (λ q. (f0 <? q.pos_output_limit) ≡ true) param_defs 14 p refl
          (λ q. ground (arith, laws.lit_pos 199 2 (omega arith))) (ground arith);
    divider_pos =
        startup_settles (λ q. (f0 <? q.outer_loop_divider) ≡ true) param_defs 15 p refl
          (λ q. ground (arith, laws.lit_pos 99 2 (omega arith))) (ground arith);
    rate_pos =
        startup_settles (λ q. (f0 <? q.rate_hz) ≡ true) param_defs 16 p refl
          (λ q. ground (arith, laws.lit_pos 999 1 (omega arith))) (ground arith);
  }

module _ {T F : Type 0} ⦃d : Double F⦄ ⦃clock : Clock T F⦄ (laws : IsIeee F) where
  pub construct-IsTuned :
      (loop_time now : T) (joint mode : String) (read : Params F)
      → IsTuned (construct loop_time now joint mode read).params
  unfolding construct apply_vel_pid_config apply_pos_pid_config
  construct-IsTuned loop_time now joint mode read = startup-IsTuned laws read

  -- In every state that the node reaches from its constructor, by any joint states, ticks and
  -- parameter changes (those that the validation refuses, and those at which an accessor throws,
  -- among them), the torque limit, the two limits of the position loop, the divider and the rate
  -- are positive.
  pub construct-run-IsTuned :
      (loop_time now : T) (joint mode : String) (read : Params F) (es : List (Event T F))
      → IsTuned (run (construct loop_time now joint mode read) es).params
  construct-run-IsTuned loop_time now joint mode read es =
      run-IsTuned (construct loop_time now joint mode read) es
        (construct-IsTuned loop_time now joint mode read)
