-- ===== src/System/Steady.antt =====
-- Only a change of parameters moves a limit.
use marine_robotics_hil_sea.Base.{
  ◌≡◌, refl, ap, inl, inr, ◌&&◌, Bool-cases, Option, none, some, List, [], ◌∷◌, String, ℕ, ◌+◌,
  arith,
}
use marine_robotics_hil_sea.Chrono.{Chrono}
use marine_robotics_hil_sea.Flap.{
  HwJointState, take_sample, on_joint_state, on_engage, on_enable_hydro, feedback_ok, hil_pass,
}
use marine_robotics_hil_sea.Flap.Node.{
  effort_command, position_command, velocity_command, hw_joint_state, engage_request,
  enable_hydro_request, tick, handle, on_effort, is_hil, syncs,
}
use marine_robotics_hil_sea.Flap.Node
use marine_robotics_hil_sea.Flap.Simulate.{adapter_step, sim_pass, hil_hydro, hil_node_pass, pass}
use marine_robotics_hil_sea.Flap.State.{FlapSim}
use marine_robotics_hil_sea.Float.{Double}
use marine_robotics_hil_sea.Hydro
use marine_robotics_hil_sea.Hydro.{Adapter, Coupling}
use marine_robotics_hil_sea.Ros.{Clock}
use marine_robotics_hil_sea.System.Network.{adapter_clip, IfTuned, IfSet, clips}
use marine_robotics_hil_sea.Velocity
use marine_robotics_hil_sea.Velocity.{VelocityNode}
use marine_robotics_hil_sea.Velocity.Tuning.{control_loop-params, joint_state_callback-params}

module _ {T F : Type 0} ⦃d : Double F⦄ ⦃clock : Clock T F⦄ where
  pub controls-steady :
      (s : VelocityNode T F) (e : Velocity.Event T F)
      → IfTuned e ((Velocity.step s e).0.params.torque_limit_nm ≡ s.params.torque_limit_nm)
      → (Velocity.step s e).0.params.torque_limit_nm ≡ s.params.torque_limit_nm
  unfolding Velocity.step
  controls-steady s (Velocity.Event.joint_state msg) h =
      ap (λ p. p.torque_limit_nm) (joint_state_callback-params msg s)
  controls-steady s (Velocity.Event.parameters ps) h = h
  controls-steady s (Velocity.Event.timer now) h =
      ap (λ p. p.torque_limit_nm) (control_loop-params s now)

module _ {T F W V K : Type 0} ⦃d : Double F⦄ where
  take_sample-clip :
      (names : List String) (i : ℕ) (msg : HwJointState T F) (s : FlapSim T F W V K)
      → (take_sample names i msg s.hil).hil_torque_clip_nm ≡ s.hil.hil_torque_clip_nm
  unfolding take_sample
  take_sample-clip [] i msg s = refl
  take_sample-clip (name ∷ names) i msg s = ground (arith, take_sample-clip names (i + 1) msg s)

module _ {T F W V K : Type 0} where
  on_effort-clips : (xs : List F) (s : FlapSim T F W V K) → clips (on_effort xs s) ≡ clips s
  unfolding on_effort
  on_effort-clips [] s = refl
  on_effort-clips (x ∷ xs) s = refl

module _ {T F W V K : Type 0} ⦃d : Double F⦄ ⦃c : Chrono W F⦄ ⦃k : Coupling W V K F⦄ where
  adapter_step-clips :
      (o : Option (Adapter V K F)) (t : F) (w : W) (s : FlapSim T F W V K)
      → adapter_clip s.hydro_adapter ≡ adapter_clip o
      → clips (adapter_step o t w s).0 ≡ clips s
  unfolding adapter_step Hydro.step
  adapter_step-clips none t w s h = refl
  adapter_step-clips (some a) t w s h = ground (arith, h)

module _ {T F W V K : Type 0} ⦃d : Double F⦄ ⦃clock : Clock T F⦄ ⦃c : Chrono W F⦄
    ⦃k : Coupling W V K F⦄ where
  sim_pass-clips : (s : FlapSim T F W V K) (now : T) → clips (sim_pass s now).0 ≡ clips s
  unfolding sim_pass
  sim_pass-clips s now = elim (Bool-cases s.hil.hydro_engaged) [
    | inl e ↦ rw e (
        ground (
          arith,
          adapter_step-clips s.hydro_adapter (clock.since now s.hil.start_time) s.world s refl,
        ))
    | inr e ↦ rw e refl
  ]

  hil_hydro-clips : (s : FlapSim T F W V K) (now : T) → clips (hil_hydro s now).0 ≡ clips s
  unfolding hil_hydro
  hil_hydro-clips s now = elim (Bool-cases (feedback_ok s.hil now && s.hil.hydro_engaged)) [
    | inl e ↦ rw e (adapter_step-clips s.hydro_adapter _ _ s refl)
    | inr e ↦ rw e refl
  ]

  pass-clips : (s : FlapSim T F W V K) (now : T) → clips (pass s now).0 ≡ clips s
  unfolding pass hil_node_pass hil_pass
  pass-clips s now = elim (Bool-cases (is_hil s)) [
    | inl e ↦ rw e (hil_hydro-clips s now)
    | inr e ↦ rw e (sim_pass-clips s now)
  ]

  pub simulates-steady :
      (s : FlapSim T F W V K) (e : Node.Event T F)
      → IfSet e (clips (Node.step s e).0 ≡ clips s)
      → clips (Node.step s e).0 ≡ clips s
  unfolding Node.step handle on_joint_state on_engage on_enable_hydro
  simulates-steady s (tick now) h = pass-clips s now
  simulates-steady s (effort_command xs) h = ground (arith, on_effort-clips xs s)
  simulates-steady s (position_command x) h = ground arith
  simulates-steady s (velocity_command x) h = ground arith
  simulates-steady s (hw_joint_state msg) h = elim (Bool-cases (is_hil s)) [
    | inl e ↦
        rw e (ap (λ x. (x, adapter_clip s.hydro_adapter)) (take_sample-clip msg.names 0 msg s))
    | inr e ↦ rw e refl
  ]
  simulates-steady s (engage_request on now) h = ground arith
  simulates-steady s (enable_hydro_request on) h = refl
  simulates-steady s (Node.Event.parameters ps) h = h
