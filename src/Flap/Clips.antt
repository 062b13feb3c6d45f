-- ===== src/Flap/Clips.antt =====
-- The load torques that the flap node publishes, from a valid state on.
use marine_robotics_hil_sea.Base.{
  ◌≡◌, refl, sym, ◌⊎◌, inl, inr, true, false, ◌&&◌, Bool-cases, Option, none, some, Option-cases,
  List, All, str_eq, arith,
}
use mathlib.Core.Path.{subst}
use marine_robotics_hil_sea.Chrono.{Chrono}
use marine_robotics_hil_sea.Flap.Defs.{
  FlapNode, Publication, load_torque, feedback_ok, hydro_result, raw_load, load, hil_pass,
}
use marine_robotics_hil_sea.Flap.Load.{
  ramp_gate-Bounded, compute_load_torque-Bounded, hydro_result-some,
}
use marine_robotics_hil_sea.Flap.Node.{Event, run, is_hil}
use marine_robotics_hil_sea.Flap.Reach.{run-IsValid, adapter_step-hil}
use marine_robotics_hil_sea.Flap.Simulate.{adapter_step, sim_pass, hil_hydro, hil_node_pass, pass}
use marine_robotics_hil_sea.Flap.State.{FlapSim}
use marine_robotics_hil_sea.Flap.Tuning.{IsValid, AdapterClipped}
use marine_robotics_hil_sea.Float.{
  Double, IsIeee, ◌⊖◌, ◌<?◌, f0, is_nan, limited, Bounded, clamp-Bounded, zero-Bounded,
  positive_of_not_le,
}
use marine_robotics_hil_sea.Hydro
use marine_robotics_hil_sea.Hydro.{Adapter, Coupling, HydroStepResult}
use marine_robotics_hil_sea.Ros.{Clock}

module _ {F : Type 0} ⦃d : Double F⦄ where
  -- A torque within the clip of an adapter.
  unfoldable pub AdapterBounds : {V K : Type 0} → Option (Adapter V K F) → F → Type 0
  AdapterBounds none x = ⊥
  AdapterBounds (some a) x = Bounded a.torque_clip_nm x

  -- A load torque is within the node's clip or within that of its adapter.
  abbrev pub LoadClipped : {T W V K : Type 0} → FlapSim T F W V K → Publication F → Type 0
  LoadClipped s (load_torque x) =
      Bounded s.hil.hil_torque_clip_nm x ⊎ AdapterBounds s.hydro_adapter x
  LoadClipped s _ = Unit {0}

module _ {T F : Type 0} ⦃d : Double F⦄ ⦃clock : Clock T F⦄ (laws : IsIeee F) where
  -- The watchdog and the gate keep what bounds the torque before them.
  gated-Bounded :
      (h : FlapNode T F) (now : T) (called : Option (HydroStepResult F)) (limit : F)
      → (f0 <? limit) ≡ true
      → Bounded limit (raw_load h now (hydro_result h now called))
      → Bounded limit (load h now called)
  unfolding load
  gated-Bounded h now called limit pos raw = elim (Bool-cases (feedback_ok h now)) [
    | inl ok ↦ rw ok (
        ramp_gate-Bounded laws h (clock.seconds now) (raw_load h now (hydro_result h now called))
          limit pos raw)
    | inr stale ↦ rw stale (zero-Bounded laws limit pos)
  ]

  -- A torque of the adapter, gated.
  gated-AdapterBounds :
      {V K : Type 0} (o : Option (Adapter V K F)) (h : FlapNode T F) (now : T)
      (called : Option (HydroStepResult F))
      → AdapterClipped o
      → AdapterBounds o (raw_load h now (hydro_result h now called))
      → AdapterBounds o (load h now called)
  unfolding AdapterClipped AdapterBounds
  gated-AdapterBounds none h now called pos raw = raw
  gated-AdapterBounds (some a) h now called pos raw =
      gated-Bounded h now called a.torque_clip_nm pos raw

module _ {T F W V K : Type 0} ⦃d : Double F⦄ ⦃clock : Clock T F⦄ ⦃c : Chrono W F⦄
    ⦃k : Coupling W V K F⦄ (laws : IsIeee F) where
  adapter_step-Bounds :
      (o : Option (Adapter V K F)) (t : F) (w : W) (s : FlapSim T F W V K) {r : HydroStepResult F}
      → AdapterClipped o
      → (adapter_step o t w s).1 ≡ some r
      → AdapterBounds o r.torque_clip_nm
  unfolding adapter_step AdapterClipped AdapterBounds Hydro.step limited
  adapter_step-Bounds none t w s h e = ground arith
  adapter_step-Bounds (some a) t w s {r} h e =
      let m =
        clamp-Bounded laws (Hydro.step t s.hil.publish_dt a w).1.torque_raw_nm a.torque_clip_nm h in
      ground (arith, m)

  hil_hydro-Bounds :
      (s : FlapSim T F W V K) (now : T) {r : HydroStepResult F}
      → AdapterClipped s.hydro_adapter
      → (hil_hydro s now).1 ≡ some r
      → AdapterBounds s.hydro_adapter r.torque_clip_nm
  unfolding hil_hydro
  hil_hydro-Bounds s now {r} h e =
      let t = clock.seconds now ⊖ clock.seconds s.hil.start_time in
      let w =
        c.set_ang_vel_parent f0 s.hil.hw_vel f0 (c.set_rot_about_pivot s.hil.hw_pos s.world) in
      elim (Bool-cases (feedback_ok s.hil now && s.hil.hydro_engaged)) [
        | inl on ↦ adapter_step-Bounds s.hydro_adapter t w s {r = r} h (ground (arith, e))
        | inr off ↦ absurd (ground (arith, e))
      ]

  hil_hydro-hil : (s : FlapSim T F W V K) (now : T) → (hil_hydro s now).0.hil ≡ s.hil
  unfolding hil_hydro
  hil_hydro-hil s now = elim (Bool-cases (feedback_ok s.hil now && s.hil.hydro_engaged)) [
    | inl on ↦ rw on (adapter_step-hil s.hydro_adapter _ _ s)
    | inr off ↦ rw off refl
  ]

  load-Clipped :
      (s : FlapSim T F W V K) (now : T)
      → IsValid s
      → is_nan s.hil.hil_torque_clip_nm ≡ false
      → LoadClipped s (load_torque (load s.hil now (hil_hydro s now).1))
  unfolding raw_load
  load-Clipped s now v real =
      let called = (hil_hydro s now).1 in
      let h = s.hil in
      let pos = positive_of_not_le laws h.hil_torque_clip_nm real v.clip_pos in
      elim (Option-cases (hydro_result h now called)) [
        | inl e ↦ inl (
            gated-Bounded laws h now called h.hil_torque_clip_nm pos
              (rw e (compute_load_torque-Bounded laws h h.hw_pos h.hw_vel _ pos)))
        | inr (r, e) ↦
            let used = hydro_result-some laws h now called r e in
            inr (
              gated-AdapterBounds laws s.hydro_adapter h now called v.adapter_clipped
                (rw e (hil_hydro-Bounds s now {r = r} v.adapter_clipped used)))
      ]

  hil_node_pass-Clipped :
      (s : FlapSim T F W V K) (now : T)
      → IsValid s
      → is_nan s.hil.hil_torque_clip_nm ≡ false
      → All (LoadClipped s) (hil_node_pass s now).1
  unfolding hil_node_pass hil_pass
  hil_node_pass-Clipped s now v real =
      let first =
        subst (λ h. LoadClipped s (load_torque (load h now (hil_hydro s now).1)))
          (sym (hil_hydro-hil s now)) (load-Clipped s now v real) in
      (first, (tt, (tt, (tt, (tt, (tt, (tt, (tt, (tt, (tt, tt))))))))))

  sim_pass-Clipped : (s : FlapSim T F W V K) (now : T) → All (LoadClipped s) (sim_pass s now).1
  unfolding sim_pass
  sim_pass-Clipped s now = elim (Bool-cases (str_eq s.mode "sil")) [
    | inl e ↦ rw e (tt, (tt, (tt, (tt, (tt, (tt, (tt, (tt, (tt, tt)))))))))
    | inr e ↦ rw e (tt, (tt, (tt, (tt, (tt, (tt, (tt, (tt, (tt, tt)))))))))
  ]

  -- In every state that messages, requests and passes lead to from a valid state, with a torque clip
  -- that is not NaN: each load torque that a pass publishes is neither below minus the torque clip
  -- nor above it, or neither below minus the clip of the adapter, whose torque replaces the
  -- stub's, nor above that.
  pub run-pass-LoadClipped :
      (s : FlapSim T F W V K) (es : List (Event T F)) (now : T)
      → IsValid s
      → is_nan (run s es).hil.hil_torque_clip_nm ≡ false
      → All (LoadClipped (run s es)) (pass (run s es) now).1
  unfolding pass
  run-pass-LoadClipped s es now v real =
      let s' = run s es in
      elim (Bool-cases (is_hil s')) [
        | inl e ↦ rw e (hil_node_pass-Clipped s' now (run-IsValid laws s es v) real)
        | inr e ↦ rw e (sim_pass-Clipped s' now)
      ]
