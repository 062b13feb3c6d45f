-- ===== src/Flap/ShadowTorque.antt =====
-- The shadow torques that the flap node publishes.
use marine_robotics_hil_sea.Base.{
  ◌≡◌, sym, inl, inr, true, false, Bool-cases, List, All, str_eq, arith,
}
use mathlib.Core.Path.{subst}
use marine_robotics_hil_sea.Chrono.{Chrono}
use marine_robotics_hil_sea.Flap.Defs.{Publication, shadow_torque, hil_pass}
use marine_robotics_hil_sea.Flap.Node.{Event, run, is_hil}
use marine_robotics_hil_sea.Flap.Simulate.{
  shadow_step, torque_command, sim_pass, hil_node_pass, pass,
}
use marine_robotics_hil_sea.Flap.State.{FlapSim}
use marine_robotics_hil_sea.Flap.Held.{Held, Keeps, run-Held}
use marine_robotics_hil_sea.Flap.StoreLimit.{
  StoreLimited, Limited, put_parameters-StoreLimited, read_shadow_params-Limited,
}
use marine_robotics_hil_sea.Float.{
  Double, IsIeee, ◌<?◌, ◌≤?◌, f0, is_nan, Bounded, zero-Bounded, positive_of_not_le,
}
use marine_robotics_hil_sea.Hydro.{Coupling}
use marine_robotics_hil_sea.Ros.{Clock}
use marine_robotics_hil_sea.Shadow
use marine_robotics_hil_sea.Shadow.{ShadowPidController}
use marine_robotics_hil_sea.Shadow.Limits.{compute-Bounded}
use marine_robotics_hil_sea.Flap.ShadowLimit.{IsLimited}

module _ {F : Type 0} ⦃d : Double F⦄ where
  compute-limit :
      (position velocity t dt : F) (c : ShadowPidController F)
      → (Shadow.compute position velocity t dt c).0.torque_limit_nm ≡ c.torque_limit_nm
  unfolding Shadow.compute Shadow.dispatch Shadow.run_inner_loop Shadow.run_position_only
      Shadow.run_outer_loop Shadow.outer_tick Shadow.filter_velocity Shadow.apply_gains
  compute-limit position velocity t dt c = ground arith

  compute_external-limit :
      (position velocity pos_ref vel_ref dt : F) (c : ShadowPidController F)
      → (Shadow.compute_external position velocity pos_ref vel_ref dt c).0.torque_limit_nm
        ≡ c.torque_limit_nm
  unfolding Shadow.compute_external Shadow.dispatch Shadow.run_inner_loop Shadow.run_position_only
      Shadow.run_outer_loop Shadow.outer_tick Shadow.filter_velocity Shadow.apply_gains
  compute_external-limit position velocity pos_ref vel_ref dt c = ground arith

module _ {T F W V K : Type 0} ⦃d : Double F⦄ where
  -- A shadow torque is within the torque limit of the controller.
  abbrev pub ShadowBounded : FlapSim T F W V K → Publication F → Type 0
  ShadowBounded s (shadow_torque x) = Bounded s.shadow_pid.torque_limit_nm x
  ShadowBounded s _ = Unit {0}

  torque_command-limit :
      (s : FlapSim T F W V K) (t : F)
      → (torque_command s t).0.torque_limit_nm ≡ s.shadow_pid.torque_limit_nm
  unfolding torque_command shadow_step
  torque_command-limit s t =
      let position = s.hil.sim_position in
      let velocity = s.hil.sim_velocity in
      let dt = s.hil.publish_dt in
      ground (
        arith,
        compute-limit position velocity t dt s.shadow_pid,
        compute_external-limit position velocity s.shadow_ext_pos_ref s.shadow_ext_vel_ref dt
            s.shadow_pid,
        compute_external-limit position velocity f0 f0 dt s.shadow_pid,
      )

  torque_command-Bounded :
      (laws : IsIeee F) (s : FlapSim T F W V K) (t : F)
      → (f0 <? s.shadow_pid.torque_limit_nm) ≡ true
      → Bounded s.shadow_pid.torque_limit_nm (torque_command s t).1
  unfolding torque_command shadow_step
  torque_command-Bounded laws s t pos =
      let position = s.hil.sim_position in
      let velocity = s.hil.sim_velocity in
      let dt = s.hil.publish_dt in
      let bounded =
        compute-Bounded laws position velocity t dt s.shadow_ext_pos_ref s.shadow_ext_vel_ref
          s.shadow_pid pos in
      ground (
        arith,
        bounded,
        compute-Bounded laws position velocity t dt f0 f0 s.shadow_pid pos,
        zero-Bounded laws s.shadow_pid.torque_limit_nm pos,
      )

module _ {T F W V K : Type 0} ⦃d : Double F⦄ ⦃clock : Clock T F⦄ ⦃c : Chrono W F⦄
    ⦃k : Coupling W V K F⦄ where
  keeps-Limited : Keeps T F W V K StoreLimited Limited
  keeps-Limited = record {
    put = put_parameters-StoreLimited;
    reread = read_shadow_params-Limited;
    called = λ s t h. subst (λ x. (x ≤? f0) ≡ false) (sym (torque_command-limit s t)) h;
  }

  run-Limited :
      (s : FlapSim T F W V K) (es : List (Event T F)) → IsLimited s → Limited (run s es).shadow_pid
  run-Limited s es v =
      let held : Held StoreLimited Limited s = record {
        stored = v.store_limited;
        held = v.limited;
      } in
      (run-Held StoreLimited Limited keeps-Limited s es held).held

  module _ (laws : IsIeee F) where
    pass-ShadowBounded :
        (s : FlapSim T F W V K) (now : T)
        → (f0 <? s.shadow_pid.torque_limit_nm) ≡ true
        → All (ShadowBounded s) (pass s now).1
    unfolding pass hil_node_pass hil_pass sim_pass
    pass-ShadowBounded s now pos =
        let zero_fits = zero-Bounded laws s.shadow_pid.torque_limit_nm pos in
        let fits = torque_command-Bounded laws s (clock.since now s.hil.start_time) pos in
        elim (Bool-cases (is_hil s)) [
          | inl e ↦ rw e (tt, (tt, (tt, (tt, (tt, (tt, (tt, (tt, (zero_fits, (tt, tt))))))))))
          | inr e ↦ elim (Bool-cases (str_eq s.mode "sil")) [
            | inl f ↦ rw (e, f) (tt, (tt, (tt, (tt, (tt, (tt, (tt, (fits, (tt, tt)))))))))
            | inr f ↦ rw (e, f) (tt, (tt, (tt, (tt, (tt, (tt, (tt, (fits, (tt, tt)))))))))
          ]
        ]

    -- From a state on whose shadow torque limit is not refused, neither in the controller nor among the
    -- parameters, whatever messages, requests, parameter changes and passes follow each other, in any
    -- mode, with a limit that is not NaN: each shadow torque that a pass publishes is neither below
    -- minus the controller's torque limit nor above it.
    pub run-pass-ShadowBounded :
        (s : FlapSim T F W V K) (es : List (Event T F)) (now : T)
        → IsLimited s
        → is_nan (run s es).shadow_pid.torque_limit_nm ≡ false
        → All (ShadowBounded (run s es)) (pass (run s es) now).1
    run-pass-ShadowBounded s es now v real =
        let s' = run s es in
        pass-ShadowBounded s' now
          (positive_of_not_le laws s'.shadow_pid.torque_limit_nm real (run-Limited s es v))
