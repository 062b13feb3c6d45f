-- ===== src/Flap/Load.antt =====
-- The load torque that a pass in the mode `hil` publishes.
use marine_robotics_hil_sea.Base.{
  ◌≡◌, refl, true, false, Bool-cases, inl, inr, arith, Option, none, some, All,
}
use marine_robotics_hil_sea.Float.{
  Double, IsIeee, ◌⊖◌, ◌⊘◌, ◌<?◌, f0, f1, clamp, Bounded, clamp-Within, clamp-Bounded, zero-Bounded,
}
use marine_robotics_hil_sea.Hydro.{HydroStepResult}
use marine_robotics_hil_sea.Flap.Defs.{
  FlapNode, Publication, load_torque, ramp_gate, compute_load_torque, feedback_ok, hydro_result,
  raw_load, load, hil_pass,
}
use marine_robotics_hil_sea.Ros.{Clock}

module _ {F : Type 0} ⦃d : Double F⦄ where
  -- A load torque is within the limit; the other topics carry what they carry.
  abbrev pub LoadBounded : F → Publication F → Type 0
  LoadBounded limit (load_torque x) = Bounded limit x
  LoadBounded limit _ = Unit {0}

  unit_range : IsIeee F → (f1 {F = F} <? f0) ≡ false
  unit_range laws =
      ground (arith, laws.lit_pos 0 0 (omega arith), laws.lt_trans f0 f1 f0, laws.lt_irrefl f0)

module _ {T F : Type 0} ⦃d : Double F⦄ (laws : IsIeee F) where
  -- The gate keeps a torque within a positive limit.
  pub ramp_gate-Bounded :
      (s : FlapNode T F) (now_s tau limit : F)
      → (f0 <? limit) ≡ true
      → Bounded limit tau
      → Bounded limit (ramp_gate s now_s tau)
  unfolding ramp_gate
  ramp_gate-Bounded s now_s tau limit pos h =
      let elapsed = (now_s ⊖ s.hil_ramp_start_time) ⊘ s.hil_ramp_time_s in
      let k = clamp elapsed f0 f1 in
      let up = clamp-Within laws elapsed f0 f1 (unit_range laws) in
      let down = laws.one_sub_unit k up.0 up.1 in
      let gated = laws.mul_unit tau k limit pos h.0 h.1 up.0 up.1 in
      let ungated = laws.mul_unit tau (f1 ⊖ k) limit pos h.0 h.1 down.0 down.1 in
      ground (arith, zero-Bounded laws limit pos)

  pub compute_load_torque-Bounded :
      (s : FlapNode T F) (theta omega t : F)
      → (f0 <? s.hil_torque_clip_nm) ≡ true
      → Bounded s.hil_torque_clip_nm (compute_load_torque s theta omega t)
  unfolding compute_load_torque
  compute_load_torque-Bounded s theta omega t pos = clamp-Bounded laws _ s.hil_torque_clip_nm pos

  module _ ⦃clock : Clock T F⦄ where
    raw_load-Bounded :
        (s : FlapNode T F) (now : T) (result : Option (HydroStepResult F))
        → (f0 <? s.hil_torque_clip_nm) ≡ true
        → ((r : HydroStepResult F)
            → result ≡ some r
            → Bounded s.hil_torque_clip_nm r.torque_clip_nm)
        → Bounded s.hil_torque_clip_nm (raw_load s now result)
    unfolding raw_load
    raw_load-Bounded s now (some r) pos hydro = hydro r refl
    raw_load-Bounded s now none pos hydro = compute_load_torque-Bounded s s.hw_pos s.hw_vel _ pos

    pub hydro_result-some :
        (s : FlapNode T F) (now : T) (adapter : Option (HydroStepResult F)) (r : HydroStepResult F)
        → hydro_result s now adapter ≡ some r
        → adapter ≡ some r
    unfolding hydro_result
    hydro_result-some s now adapter r h = ground arith

    load-Bounded :
        (s : FlapNode T F) (now : T) (adapter : Option (HydroStepResult F))
        → (f0 <? s.hil_torque_clip_nm) ≡ true
        → ((r : HydroStepResult F)
            → adapter ≡ some r
            → Bounded s.hil_torque_clip_nm r.torque_clip_nm)
        → Bounded s.hil_torque_clip_nm (load s now adapter)
    unfolding load
    load-Bounded s now adapter pos hydro = elim (Bool-cases (feedback_ok s now)) [
      | inl ok ↦
          let result = hydro_result s now adapter in
          let raw =
            raw_load-Bounded s now result pos
              (λ r e. hydro r (hydro_result-some s now adapter r e)) in
          rw ok (
            ramp_gate-Bounded s (clock.seconds now) (raw_load s now result) s.hil_torque_clip_nm pos
              raw)
      | inr stale ↦ rw stale (zero-Bounded laws s.hil_torque_clip_nm pos)
    ]

    -- With a positive torque clip, and a hydrodynamic torque within it where the adapter is used, each
    -- load torque that a pass publishes is neither below minus the clip nor above the clip: engaged
    -- or not, at every point of the ramps, with good feedback or without.
    hil_pass-LoadBounded :
        (s : FlapNode T F) (now : T) (adapter : Option (HydroStepResult F))
        → (f0 <? s.hil_torque_clip_nm) ≡ true
        → ((r : HydroStepResult F)
            → adapter ≡ some r
            → Bounded s.hil_torque_clip_nm r.torque_clip_nm)
        → All (LoadBounded s.hil_torque_clip_nm) (hil_pass s now adapter).1
    unfolding hil_pass
    hil_pass-LoadBounded s now adapter pos hydro = (
      load-Bounded s now adapter pos hydro,
      (tt, (tt, (tt, (tt, (tt, (tt, (tt, (tt, (tt, tt))))))))),
    )
