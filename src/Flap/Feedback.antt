-- ===== src/Flap/Feedback.antt =====
-- The joint state that the flap node holds in the mode `hil`, against the messages that it has received.
use marine_robotics_hil_sea.Base.{
  ℕ, ◌+◌, ◌≡◌, refl, sym, inl, inr, true, false, ◌&&◌, Bool-cases, Option-cases, Option, none, some,
  List, [], ◌∷◌, String, str_eq, if◌then◌else◌, arith,
}
use mathlib.Core.Path.{subst}
use marine_robotics_hil_sea.Chrono.{Chrono}
use marine_robotics_hil_sea.Flap.Apply.{
  Flags, apply_one, finish_apply, apply_each, on_apply_parameters, set_parameters,
  update_flap_inertia,
}
use marine_robotics_hil_sea.Flap.Defs.{
  FlapNode, HwJointState, on_joint_state, take_sample, on_engage, on_enable_hydro, feedback_ok,
  hil_pass,
}
use marine_robotics_hil_sea.Flap.Node.{
  Event, effort_command, position_command, velocity_command, hw_joint_state, engage_request,
  enable_hydro_request, parameters, tick, handle, step, run,
}
use marine_robotics_hil_sea.Flap.Simulate.{adapter_step, hil_hydro, hil_node_pass, pass}
use marine_robotics_hil_sea.Flap.Spares.{Spared, SparesResult, apply_one-Spares}
use marine_robotics_hil_sea.Flap.State.{FlapSim}
use marine_robotics_hil_sea.Flap.Store.{put_parameters}
use marine_robotics_hil_sea.Float.{Double}
use marine_robotics_hil_sea.Hydro
use marine_robotics_hil_sea.Hydro.{Adapter, Coupling}
use marine_robotics_hil_sea.Ros.{Clock, Parameter, contains}

module _ {T : Type 0} where
  -- The newer of two stamps, if there is one.
  abbrev pub or_older : Option T → Option T → Option T
  or_older none older = older
  or_older (some t) older = some t

  pub or_older-none : (a : Option T) → or_older a none ≡ a
  or_older-none none = refl
  or_older-none (some t) = refl

  or_older_assoc : (a b c : Option T) → or_older (or_older a b) c ≡ or_older a (or_older b c)
  or_older_assoc none b c = refl
  or_older_assoc (some t) b c = refl

module _ {T F : Type 0} where
  -- The stamp of a message that names the joint.
  abbrev stamp_in : String → Event T F → Option T
  stamp_in name (hw_joint_state msg) = if contains msg.names name then some msg.stamp else none
  stamp_in name _ = none

  -- The stamp of the last message among the events that names the joint.
  abbrev pub last_stamp : String → List (Event T F) → Option T
  last_stamp name [] = none
  last_stamp name (e ∷ es) = or_older (last_stamp name es) (stamp_in name e)

  -- The stamp of the joint state that the node holds.
  abbrev pub held_stamp : FlapNode T F → Option T
  held_stamp h = if h.hw_received then some h.hw_stamp else none

module _ {T F W V K : Type 0} where
  -- In the mode hil the node looks for the joint of this name, and holds this stamp.
  pub record Fed (name : String) (o : Option T) (s : FlapSim T F W V K) : Type 0 where
    pub mode : str_eq s.mode "hil" ≡ true
    pub named : s.hil.joint_name ≡ name
    pub fed : held_stamp s.hil ≡ o

  Spared-Fed :
      (name : String) (o : Option T) (s t : FlapSim T F W V K)
      → Spared s t
      → Fed name o s
      → Fed name o t
  Spared-Fed name o s t (store, controller, mode, joint, stamp, received) v =
      ground (arith, v, mode, joint, stamp, received)

module _ {T F : Type 0} ⦃d : Double F⦄ where
  take_sample-Fed :
      (names : List String) (i : ℕ) (msg : HwJointState T F) (h : FlapNode T F)
      → (held_stamp (take_sample names i msg h)
          ≡ or_older (if contains names h.joint_name then some msg.stamp else none) (held_stamp h))
        × ((take_sample names i msg h).joint_name ≡ h.joint_name)
  unfolding take_sample contains
  take_sample-Fed [] i msg h = (refl, refl)
  take_sample-Fed (name ∷ names) i msg h = elim (Bool-cases (str_eq name h.joint_name)) [
    | inl e ↦ rw e (refl, refl)
    | inr e ↦ rw e (take_sample-Fed names (i + 1) msg h)
  ]

module _ {T F W V K : Type 0} ⦃d : Double F⦄ ⦃c : Chrono W F⦄ where
  finish_apply-Fed :
      (name : String) (o : Option T) (flags : Flags) (s : FlapSim T F W V K)
      → Fed name o s
      → Fed name o (finish_apply flags s)
  unfolding finish_apply update_flap_inertia
  finish_apply-Fed name o flags s v = elim (Bool-cases flags.body_needs_update) [
    | inl a ↦ elim (Bool-cases flags.shadow_pid_changed) [
      | inl b ↦ rw (a, b) (ground (arith, v))
      | inr b ↦ rw (a, b) (ground (arith, v))
    ]
    | inr a ↦ elim (Bool-cases flags.shadow_pid_changed) [
      | inl b ↦ rw (a, b) (ground (arith, v))
      | inr b ↦ rw (a, b) v
    ]
  ]

  apply_each-Fed :
      (name : String) (o : Option T) (ps : List (Parameter F)) (flags : Flags)
      (s : FlapSim T F W V K)
      → Fed name o s
      → Fed name o (apply_each ps flags s)
  unfolding apply_each
  apply_each-Fed name o [] flags s v = finish_apply-Fed name o flags s v
  apply_each-Fed name o (p ∷ ps) flags s v = elim (Option-cases (apply_one p flags s)) [
    | inl e ↦ rw (e, apply_each) v
    | inr ((s', flags'), e) ↦
        let same = subst (SparesResult s) e (apply_one-Spares p flags s) in
        rw (e, apply_each) (apply_each-Fed name o ps flags' s' (Spared-Fed name o s s' same v))
  ]

  set_parameters-Fed :
      (name : String) (o : Option T) (ps : List (Parameter F)) (s : FlapSim T F W V K)
      → Fed name o s
      → Fed name o (set_parameters ps s)
  unfolding set_parameters on_apply_parameters
  set_parameters-Fed name o ps s v =
      let put = record s { store = put_parameters ps s.store } in
      let flags : Flags = record { body_needs_update = false; shadow_pid_changed = false } in
      let after : Fed name o (apply_each ps flags put) =
        apply_each-Fed name o ps flags put (ground (arith, v)) in
      ground (arith, after, v)

module _ {T F W V K : Type 0} ⦃d : Double F⦄ ⦃clock : Clock T F⦄ ⦃c : Chrono W F⦄
    ⦃k : Coupling W V K F⦄ where
  adapter_step-Fed :
      (name : String) (o : Option T) (a : Option (Adapter V K F)) (t : F) (w : W)
      (s : FlapSim T F W V K)
      → Fed name o s
      → Fed name o (adapter_step a t w s).0
  unfolding adapter_step Hydro.step
  adapter_step-Fed name o none t w s v = v
  adapter_step-Fed name o (some a) t w s v = ground (arith, v)

  hil_hydro-Fed :
      (name : String) (o : Option T) (s : FlapSim T F W V K) (now : T)
      → Fed name o s
      → Fed name o (hil_hydro s now).0
  unfolding hil_hydro
  hil_hydro-Fed name o s now v = elim (Bool-cases (feedback_ok s.hil now && s.hil.hydro_engaged)) [
    | inl e ↦ rw e (adapter_step-Fed name o s.hydro_adapter _ _ s v)
    | inr e ↦ rw e v
  ]

  pass-Fed :
      (name : String) (o : Option T) (s : FlapSim T F W V K) (now : T)
      → Fed name o s
      → Fed name o (pass s now).0
  unfolding pass hil_node_pass hil_pass
  pass-Fed name o s now v = rw v.mode (let w = hil_hydro-Fed name o s now v in ground (arith, w))

  handle-Fed :
      (name : String) (o : Option T) (e : Event T F) (s : FlapSim T F W V K)
      → Fed name o s
      → Fed name (or_older (stamp_in name e) o) (handle e s)
  unfolding handle on_joint_state on_engage on_enable_hydro
  handle-Fed name o (effort_command xs) s v = rw v.mode v
  handle-Fed name o (position_command x) s v = ground (arith, v)
  handle-Fed name o (velocity_command x) s v = ground (arith, v)
  handle-Fed name o (hw_joint_state msg) s v =
      let sample = take_sample-Fed msg.names 0 msg s.hil in ground (arith, v, sample)
  handle-Fed name o (engage_request on now) s v = ground (arith, v)
  handle-Fed name o (enable_hydro_request on) s v = ground (arith, v)
  handle-Fed name o (parameters ps) s v = set_parameters-Fed name o ps s v
  handle-Fed name o (tick now) s v = v

  step-Fed :
      (name : String) (o : Option T) (s : FlapSim T F W V K) (e : Event T F)
      → Fed name o s
      → Fed name (or_older (stamp_in name e) o) (step s e).0
  unfolding step
  step-Fed name o s (tick now) v = pass-Fed name o s now v
  step-Fed name o s (effort_command xs) v = handle-Fed name o (effort_command xs) s v
  step-Fed name o s (position_command x) v = handle-Fed name o (position_command x) s v
  step-Fed name o s (velocity_command x) v = handle-Fed name o (velocity_command x) s v
  step-Fed name o s (hw_joint_state msg) v = handle-Fed name o (hw_joint_state msg) s v
  step-Fed name o s (engage_request on now) v = handle-Fed name o (engage_request on now) s v
  step-Fed name o s (enable_hydro_request on) v = handle-Fed name o (enable_hydro_request on) s v
  step-Fed name o s (parameters ps) v = handle-Fed name o (parameters ps) s v

  -- The stamp that the node holds is the one of the last message that names the joint.
  pub run-Fed :
      (name : String) (o : Option T) (s : FlapSim T F W V K) (es : List (Event T F))
      → Fed name o s
      → Fed name (or_older (last_stamp name es) o) (run s es)
  unfolding run
  run-Fed name o s [] v = v
  run-Fed name o s (e ∷ es) v =
      let newer = or_older (stamp_in name e) o in
      subst (λ x. Fed name x (run (step s e).0 es))
        (sym (or_older_assoc (last_stamp name es) (stamp_in name e) o))
        (run-Fed name newer (step s e).0 es (step-Fed name o s e v))
