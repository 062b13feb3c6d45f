-- ===== src/Flap/Reach.antt =====
-- The states that the flap node reaches, and the loads that it publishes in them.
use marine_robotics_hil_sea.Base.{
  ℕ, ◌+◌, ◌≡◌, refl, inl, inr, ◌&&◌, Bool-cases, Option, none, some, List, [], ◌∷◌, String, str_eq,
  arith,
}
use marine_robotics_hil_sea.Chrono.{Chrono}
use marine_robotics_hil_sea.Flap.Changes.{set_parameters-IsValid}
use marine_robotics_hil_sea.Flap.Defs.{
  HwJointState, on_joint_state, take_sample, on_engage, on_enable_hydro, feedback_ok, hil_pass,
}
use marine_robotics_hil_sea.Flap.Node.{
  Event, effort_command, position_command, velocity_command, hw_joint_state, engage_request,
  enable_hydro_request, parameters, tick, on_effort, handle, step, run, syncs, is_hil,
}
use marine_robotics_hil_sea.Flap.Simulate.{adapter_step, sim_pass, hil_hydro, hil_node_pass, pass}
use marine_robotics_hil_sea.Flap.State.{FlapSim}
use marine_robotics_hil_sea.Flap.Tuning.{IsValid, AdapterClipped}
use marine_robotics_hil_sea.Float.{Double, IsIeee}
use marine_robotics_hil_sea.Hydro
use marine_robotics_hil_sea.Hydro.{Adapter, Coupling, HydroStepResult}
use marine_robotics_hil_sea.Ros.{Clock}

module _ {T F W V K : Type 0} ⦃d : Double F⦄ where
  -- A joint state changes nothing that the validity speaks of.
  take_sample-IsValid :
      (names : List String) (i : ℕ) (msg : HwJointState T F) (s : FlapSim T F W V K)
      → IsValid s
      → IsValid (record s { hil = take_sample names i msg s.hil })
  unfolding take_sample
  take_sample-IsValid [] i msg s v = v
  take_sample-IsValid (name ∷ names) i msg s v = elim (Bool-cases (str_eq name s.hil.joint_name)) [
    | inl e ↦ rw (e, take_sample) (ground arith)
    | inr e ↦ rw (e, take_sample) (take_sample-IsValid names (i + 1) msg s v)
  ]

  module _ ⦃c : Chrono W F⦄ ⦃k : Coupling W V K F⦄ where
    adapter_step-IsValid :
        (o : Option (Adapter V K F)) (t : F) (w : W) (s : FlapSim T F W V K)
        → AdapterClipped o
        → IsValid s
        → IsValid (adapter_step o t w s).0
    unfolding adapter_step AdapterClipped Hydro.step
    adapter_step-IsValid none t w s h v = v
    adapter_step-IsValid (some a) t w s h v = ground arith

  module _ ⦃clock : Clock T F⦄ ⦃c : Chrono W F⦄ ⦃k : Coupling W V K F⦄ where
    sim_pass-IsValid : (s : FlapSim T F W V K) (now : T) → IsValid s → IsValid (sim_pass s now).0
    unfolding sim_pass
    sim_pass-IsValid s now v = elim (Bool-cases s.hil.hydro_engaged) [
      | inl e ↦
          let t = clock.since now s.hil.start_time in
          let w = adapter_step-IsValid s.hydro_adapter t s.world s v.adapter_clipped v in
          rw e (ground (arith, w))
      | inr e ↦ rw e (ground arith)
    ]

    pub adapter_step-hil :
        (o : Option (Adapter V K F)) (t : F) (w : W) (s : FlapSim T F W V K)
        → (adapter_step o t w s).0.hil ≡ s.hil
    unfolding adapter_step Hydro.step
    adapter_step-hil none t w s = refl
    adapter_step-hil (some a) t w s = refl

    hil_hydro-IsValid : (s : FlapSim T F W V K) (now : T) → IsValid s → IsValid (hil_hydro s now).0
    unfolding hil_hydro
    hil_hydro-IsValid s now v = elim (Bool-cases (feedback_ok s.hil now && s.hil.hydro_engaged)) [
      | inl e ↦ rw e (adapter_step-IsValid s.hydro_adapter _ _ s v.adapter_clipped v)
      | inr e ↦ rw e v
    ]

    pass-IsValid : (s : FlapSim T F W V K) (now : T) → IsValid s → IsValid (pass s now).0
    unfolding pass hil_node_pass hil_pass
    pass-IsValid s now v = elim (Bool-cases (is_hil s)) [
      | inl e ↦ let w = hil_hydro-IsValid s now v in rw e (ground (arith, w))
      | inr e ↦ rw e (sim_pass-IsValid s now v)
    ]

    module _ (laws : IsIeee F) where
      on_effort-IsValid :
          (xs : List F) (s : FlapSim T F W V K) → IsValid s → IsValid (on_effort xs s)
      unfolding on_effort
      on_effort-IsValid [] s v = v
      on_effort-IsValid (x ∷ xs) s v = ground arith

      handle-IsValid : (e : Event T F) (s : FlapSim T F W V K) → IsValid s → IsValid (handle e s)
      unfolding handle on_joint_state on_engage on_enable_hydro
      handle-IsValid (effort_command xs) s v = elim (Bool-cases (is_hil s)) [
        | inl e ↦ rw e v
        | inr e ↦ rw e (on_effort-IsValid xs s v)
      ]
      handle-IsValid (position_command x) s v = elim (Bool-cases (syncs s)) [
        | inl e ↦ rw e (ground arith)
        | inr e ↦ rw e v
      ]
      handle-IsValid (velocity_command x) s v = elim (Bool-cases (syncs s)) [
        | inl e ↦ rw e (ground arith)
        | inr e ↦ rw e v
      ]
      handle-IsValid (hw_joint_state msg) s v = elim (Bool-cases (is_hil s)) [
        | inl e ↦ rw e (take_sample-IsValid msg.names 0 msg s v)
        | inr e ↦ rw e v
      ]
      handle-IsValid (engage_request on now) s v = elim (Bool-cases (is_hil s)) [
        | inl e ↦ rw e (ground arith)
        | inr e ↦ rw e v
      ]
      handle-IsValid (enable_hydro_request on) s v = ground arith
      handle-IsValid (parameters ps) s v = set_parameters-IsValid laws ps s v
      handle-IsValid (tick now) s v = v

      step-IsValid : (s : FlapSim T F W V K) (e : Event T F) → IsValid s → IsValid (step s e).0
      unfolding step
      step-IsValid s (tick now) v = pass-IsValid s now v
      step-IsValid s (effort_command xs) v = handle-IsValid (effort_command xs) s v
      step-IsValid s (position_command x) v = handle-IsValid (position_command x) s v
      step-IsValid s (velocity_command x) v = handle-IsValid (velocity_command x) s v
      step-IsValid s (hw_joint_state msg) v = handle-IsValid (hw_joint_state msg) s v
      step-IsValid s (engage_request on now) v = handle-IsValid (engage_request on now) s v
      step-IsValid s (enable_hydro_request on) v = handle-IsValid (enable_hydro_request on) s v
      step-IsValid s (parameters ps) v = handle-IsValid (parameters ps) s v

      -- A valid state stays valid, whatever messages, requests, parameter changes and passes follow each
      -- other, in any mode.
      pub run-IsValid :
          (s : FlapSim T F W V K) (es : List (Event T F)) → IsValid s → IsValid (run s es)
      unfolding run
      run-IsValid s [] v = v
      run-IsValid s (e ∷ es) v = run-IsValid (step s e).0 es (step-IsValid s e v)
