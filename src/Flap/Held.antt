-- ===== src/Flap/Held.antt =====
-- What holds of the parameters' store and of the shadow controller, through every callback and pass.
use marine_robotics_hil_sea.Hydro
use marine_robotics_hil_sea.Base.{
  ◌≡◌, refl, sym, inl, inr, false, Bool-cases, Option-cases, Option, none, some, List, [], ◌∷◌,
  arith, ◌&&◌,
}
use mathlib.Core.Path.{subst}
use marine_robotics_hil_sea.Chrono.{Chrono}
use marine_robotics_hil_sea.Flap.Apply.{
  Flags, apply_one, finish_apply, apply_each, on_apply_parameters, set_parameters,
  update_flap_inertia, read_shadow_params,
}
use marine_robotics_hil_sea.Flap.State.{FlapSim}
use marine_robotics_hil_sea.Flap.Store.{put_parameters}
use marine_robotics_hil_sea.Flap.Spares.{SparesResult, apply_one-Spares}
use marine_robotics_hil_sea.Flap.Validation.{validate_one, on_validate_parameters}
use marine_robotics_hil_sea.Float.{Double}
use marine_robotics_hil_sea.Ros.{Parameter, accepted, validate_each, Clock}
use marine_robotics_hil_sea.Flap.Defs.{feedback_ok}
use marine_robotics_hil_sea.Flap.Node.{
  Event, effort_command, position_command, velocity_command, hw_joint_state, engage_request,
  enable_hydro_request, parameters, tick, on_effort, handle, step, run, syncs, is_hil,
}
use marine_robotics_hil_sea.Flap.Simulate.{
  torque_command, adapter_step, sim_pass, hil_hydro, hil_node_pass, pass,
}
use marine_robotics_hil_sea.Hydro.{Adapter, Coupling}
use marine_robotics_hil_sea.Shadow.{ShadowPidController}

module _ {T F W V K : Type 0} (P : List (Parameter F) → Type 0)
    (Q : ShadowPidController F → Type 0) where
  -- What holds of the store, and what holds of the shadow controller.
  pub record Held (s : FlapSim T F W V K) : Type 0 where
    pub stored : P s.store
    pub held : Q s.shadow_pid

module _ (T F W V K : Type 0) ⦃d : Double F⦄ (P : List (Parameter F) → Type 0)
    (Q : ShadowPidController F → Type 0) where
  -- Accepted changes keep what holds of the store, and the re-read of the parameters and the calls of
  -- the controller keep what holds of the controller.
  pub record Keeps : Type 0 where
    pub put :
        (ps store : List (Parameter F))
        → validate_each validate_one ps ≡ accepted
        → P store
        → P (put_parameters ps store)
    pub reread :
        (store : List (Parameter F)) (controller : ShadowPidController F)
        → P store
        → Q controller
        → Q (read_shadow_params store controller).0
    pub called : (s : FlapSim T F W V K) (t : F) → Q s.shadow_pid → Q (torque_command s t).0

module _ {T F W V K : Type 0} (P : List (Parameter F) → Type 0)
    (Q : ShadowPidController F → Type 0) where
  -- A state with the same store and controller.
  pub same-Held :
      (s t : FlapSim T F W V K)
      → (t.store ≡ s.store) × (t.shadow_pid ≡ s.shadow_pid)
      → Held P Q s
      → Held P Q t
  same-Held s t (store, controller) v = record {
    stored = subst P (sym store) v.stored;
    held = subst Q (sym controller) v.held;
  }

module _ {T F W V K : Type 0} ⦃d : Double F⦄ ⦃c : Chrono W F⦄ (P : List (Parameter F) → Type 0)
    (Q : ShadowPidController F → Type 0) (keeps : Keeps T F W V K P Q) where
  update_flap_inertia-Held : (s : FlapSim T F W V K) → Held P Q s → Held P Q (update_flap_inertia s)
  unfolding update_flap_inertia
  update_flap_inertia-Held s v = same-Held P Q s _ (refl, refl) v

  reread-Held :
      (s : FlapSim T F W V K)
      → Held P Q s
      → Held P Q (record s { shadow_pid = (read_shadow_params s.store s.shadow_pid).0 })
  reread-Held s v = record {
    stored = v.stored;
    held = keeps.reread s.store s.shadow_pid v.stored v.held;
  }

  finish_apply-Held :
      (flags : Flags) (s : FlapSim T F W V K) → Held P Q s → Held P Q (finish_apply flags s)
  unfolding finish_apply
  finish_apply-Held flags s v = elim (Bool-cases flags.body_needs_update) [
    | inl a ↦ elim (Bool-cases flags.shadow_pid_changed) [
      | inl b ↦ rw (a, b) (reread-Held (update_flap_inertia s) (update_flap_inertia-Held s v))
      | inr b ↦ rw (a, b) (update_flap_inertia-Held s v)
    ]
    | inr a ↦ elim (Bool-cases flags.shadow_pid_changed) [
      | inl b ↦ rw (a, b) (reread-Held s v)
      | inr b ↦ rw (a, b) v
    ]
  ]

  apply_each-Held :
      (ps : List (Parameter F)) (flags : Flags) (s : FlapSim T F W V K)
      → Held P Q s
      → Held P Q (apply_each ps flags s)
  unfolding apply_each
  apply_each-Held [] flags s v = finish_apply-Held flags s v
  apply_each-Held (p ∷ ps) flags s v = elim (Option-cases (apply_one p flags s)) [
    | inl e ↦ rw (e, apply_each) v
    | inr ((s', flags'), e) ↦
        let same = subst (SparesResult s) e (apply_one-Spares p flags s) in
        rw (e, apply_each) (apply_each-Held ps flags' s' (same-Held P Q s s' (same.0, same.1) v))
  ]

  pub set_parameters-Held :
      (ps : List (Parameter F)) (s : FlapSim T F W V K)
      → Held P Q s
      → Held P Q (set_parameters ps s)
  unfolding set_parameters on_apply_parameters on_validate_parameters
  set_parameters-Held ps s v =
      let put = record s { store = put_parameters ps s.store } in
      let flags : Flags = record { body_needs_update = false; shadow_pid_changed = false } in
      let stored : validate_each validate_one ps ≡ accepted → Held P Q put =
        λ ok. record { stored = keeps.put ps s.store ok v.stored; held = v.held } in
      let after : validate_each validate_one ps ≡ accepted → Held P Q (apply_each ps flags put) =
        λ ok. apply_each-Held ps flags put (stored ok) in
      ground (arith, after, v)

module _ {T F W V K : Type 0} where
  on_effort-same :
      (xs : List F) (s : FlapSim T F W V K)
      → ((on_effort xs s).store ≡ s.store) × ((on_effort xs s).shadow_pid ≡ s.shadow_pid)
  unfolding on_effort
  on_effort-same [] s = (refl, refl)
  on_effort-same (x ∷ xs) s = (refl, refl)

module _ {T F W V K : Type 0} ⦃d : Double F⦄ ⦃c : Chrono W F⦄ ⦃k : Coupling W V K F⦄ where
  adapter_step-same :
      (o : Option (Adapter V K F)) (t : F) (w : W) (s : FlapSim T F W V K)
      → ((adapter_step o t w s).0.store ≡ s.store)
        × ((adapter_step o t w s).0.shadow_pid ≡ s.shadow_pid)
  unfolding adapter_step Hydro.step
  adapter_step-same none t w s = (refl, refl)
  adapter_step-same (some a) t w s = (refl, refl)

module _ {T F W V K : Type 0} ⦃d : Double F⦄ ⦃clock : Clock T F⦄ ⦃c : Chrono W F⦄
    ⦃k : Coupling W V K F⦄ where
  sim_pass-store : (s : FlapSim T F W V K) (now : T) → (sim_pass s now).0.store ≡ s.store
  unfolding sim_pass
  sim_pass-store s now = elim (Bool-cases s.hil.hydro_engaged) [
    | inl e ↦
        let t = clock.since now s.hil.start_time in
        let same = (adapter_step-same s.hydro_adapter t s.world s).0 in ground (arith, same)
    | inr e ↦ ground arith
  ]

  hil_hydro-same :
      (s : FlapSim T F W V K) (now : T)
      → ((hil_hydro s now).0.store ≡ s.store) × ((hil_hydro s now).0.shadow_pid ≡ s.shadow_pid)
  unfolding hil_hydro
  hil_hydro-same s now = elim (Bool-cases (feedback_ok s.hil now && s.hil.hydro_engaged)) [
    | inl e ↦ rw e (adapter_step-same s.hydro_adapter _ _ s)
    | inr e ↦ rw e (refl, refl)
  ]

module _ {T F W V K : Type 0} ⦃d : Double F⦄ ⦃clock : Clock T F⦄ ⦃c : Chrono W F⦄
    ⦃k : Coupling W V K F⦄ (P : List (Parameter F) → Type 0) (Q : ShadowPidController F → Type 0)
    (keeps : Keeps T F W V K P Q) where
  sim_pass-held :
      (s : FlapSim T F W V K) (now : T) → Q s.shadow_pid → Q (sim_pass s now).0.shadow_pid
  unfolding sim_pass
  sim_pass-held s now h = keeps.called s (clock.since now s.hil.start_time) h

  pass-Held : (s : FlapSim T F W V K) (now : T) → Held P Q s → Held P Q (pass s now).0
  unfolding pass hil_node_pass
  pass-Held s now v = elim (Bool-cases (is_hil s)) [
    | inl e ↦ rw e (same-Held P Q s _ (hil_hydro-same s now) v)
    | inr e ↦ rw e (record {
      stored = subst P (sym (sim_pass-store s now)) v.stored;
      held = sim_pass-held s now v.held;
    })
  ]

  handle-Held : (e : Event T F) (s : FlapSim T F W V K) → Held P Q s → Held P Q (handle e s)
  unfolding handle
  handle-Held (effort_command xs) s v = elim (Bool-cases (is_hil s)) [
    | inl e ↦ rw e v
    | inr e ↦ rw e (same-Held P Q s _ (on_effort-same xs s) v)
  ]
  handle-Held (position_command x) s v = elim (Bool-cases (syncs s)) [
    | inl e ↦ rw e (same-Held P Q s _ (refl, refl) v)
    | inr e ↦ rw e v
  ]
  handle-Held (velocity_command x) s v = elim (Bool-cases (syncs s)) [
    | inl e ↦ rw e (same-Held P Q s _ (refl, refl) v)
    | inr e ↦ rw e v
  ]
  handle-Held (hw_joint_state msg) s v = elim (Bool-cases (is_hil s)) [
    | inl e ↦ rw e (same-Held P Q s _ (refl, refl) v)
    | inr e ↦ rw e v
  ]
  handle-Held (engage_request on now) s v = elim (Bool-cases (is_hil s)) [
    | inl e ↦ rw e (same-Held P Q s _ (refl, refl) v)
    | inr e ↦ rw e v
  ]
  handle-Held (enable_hydro_request on) s v = same-Held P Q s _ (refl, refl) v
  handle-Held (parameters ps) s v = set_parameters-Held P Q keeps ps s v
  handle-Held (tick now) s v = v

  step-Held : (s : FlapSim T F W V K) (e : Event T F) → Held P Q s → Held P Q (step s e).0
  unfolding step
  step-Held s (tick now) v = pass-Held s now v
  step-Held s (effort_command xs) v = handle-Held (effort_command xs) s v
  step-Held s (position_command x) v = handle-Held (position_command x) s v
  step-Held s (velocity_command x) v = handle-Held (velocity_command x) s v
  step-Held s (hw_joint_state msg) v = handle-Held (hw_joint_state msg) s v
  step-Held s (engage_request on now) v = handle-Held (engage_request on now) s v
  step-Held s (enable_hydro_request on) v = handle-Held (enable_hydro_request on) s v
  step-Held s (parameters ps) v = handle-Held (parameters ps) s v

  pub run-Held : (s : FlapSim T F W V K) (es : List (Event T F)) → Held P Q s → Held P Q (run s es)
  unfolding run
  run-Held s [] v = v
  run-Held s (e ∷ es) v = run-Held (step s e).0 es (step-Held s e v)
