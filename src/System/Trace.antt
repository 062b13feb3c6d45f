-- ===== src/System/Trace.antt =====
-- Where the torques of the stack come from, and their limits.
use marine_robotics_hil_sea.Base.{
  ℕ, zero, suc, ◌≡◌, refl, ◌⊎◌, inl, inr, false, Option, none, some, List, [], ◌∷◌, ◌++◌, All,
  get_elem?, arith,
}
use marine_robotics_hil_sea.Chrono.{Chrono}
use marine_robotics_hil_sea.Flap.{Publication, load_torque}
use marine_robotics_hil_sea.Flap.Clips.{AdapterBounds, LoadClipped, run-pass-LoadClipped}
use marine_robotics_hil_sea.Flap.Node.{
  Event, effort_command, position_command, velocity_command, hw_joint_state, engage_request,
  enable_hydro_request, parameters, tick, step, run,
}
use marine_robotics_hil_sea.Flap.State.{FlapSim}
use marine_robotics_hil_sea.Flap.Tuning.{IsValid}
use marine_robotics_hil_sea.Float.{Double, IsIeee, ◌⊕◌, neg, f0, is_nan, clamp, Bounded}
use marine_robotics_hil_sea.Hydro.{Adapter, Coupling}
use marine_robotics_hil_sea.Mixer
use marine_robotics_hil_sea.Mixer.{Mixer, effective_pid, effective_load}
use marine_robotics_hil_sea.Ros.{Clock}
use marine_robotics_hil_sea.System.Network.{torques_of, loads_of, adapter_clip}
use marine_robotics_hil_sea.Velocity
use marine_robotics_hil_sea.Velocity.{VelocityNode, torque_command}
use marine_robotics_hil_sea.Velocity.Torque.{TorqueBounded, control_loop-Bounded}
use marine_robotics_hil_sea.Velocity.Tuning.{IsTuned}

module _ {F : Type 0} ⦃d : Double F⦄ where
  -- Zero, or a message of a topic.
  abbrev pub Sent : List F → F → Type 0
  Sent xs x = (x ≡ f0) ⊎ ((i : ℕ) × (get_elem? xs i ≡ some x))

  -- A load within the clip of the load or within that of the adapter.
  abbrev pub LoadWithin : F → Option F → F → Type 0
  LoadWithin clip none x = Bounded clip x
  LoadWithin clip (some limit) x = Bounded clip x ⊎ Bounded limit x

  -- A clipped sum of a PID torque and a load.
  abbrev pub Mixed : F → List F → List F → F → Type 0
  Mixed clip torques loads x =
      (p : F) × (l : F) × Sent torques p × Sent loads l × (x ≡ clamp (p ⊕ l) (neg clip) clip)

  get_elem?-++ :
      (xs ys : List F) (i : ℕ) {y : F} → get_elem? xs i ≡ some y → get_elem? (xs ++ ys) i ≡ some y
  get_elem?-++ [] ys i e = absurd (ground arith)
  get_elem?-++ (x ∷ xs) ys zero e = e
  get_elem?-++ (x ∷ xs) ys (suc i) {y} e = get_elem?-++ xs ys i {y = y} e

  pub Sent-++ : (xs ys : List F) (x : F) → Sent xs x → Sent (xs ++ ys) x
  Sent-++ xs ys x (inl zero_torque) = inl zero_torque
  Sent-++ xs ys x (inr (i, e)) = inr (i, get_elem?-++ xs ys i {y = x} e)

  -- Messages that follow change nothing of what a command was made of.
  pub Mixed-torques :
      (clip : F) (torques more loads : List F) (x : F)
      → Mixed clip torques loads x
      → Mixed clip (torques ++ more) loads x
  Mixed-torques clip torques more loads x (p, l, sent_p, sent_l, e) =
      (p, l, Sent-++ torques more p sent_p, sent_l, e)

  pub Mixed-loads :
      (clip : F) (torques loads more : List F) (x : F)
      → Mixed clip torques loads x
      → Mixed clip torques (loads ++ more) x
  Mixed-loads clip torques loads more x (p, l, sent_p, sent_l, e) =
      (p, l, sent_p, Sent-++ loads more l sent_l, e)

  pub All-mono : (P Q : F → Type 0) (xs : List F) → ((x : F) → P x → Q x) → All P xs → All Q xs
  All-mono P Q [] f h = tt
  All-mono P Q (x ∷ xs) f (h, hs) = (f x h, All-mono P Q xs f hs)

  torques_of-All :
      (limit : F) (ps : List (Velocity.Publication F))
      → All (TorqueBounded limit) ps
      → All (Bounded limit) (torques_of ps)
  torques_of-All limit [] h = tt
  torques_of-All limit (torque_command x ∷ ps) (h, hs) = (h, torques_of-All limit ps hs)
  torques_of-All limit (Velocity.Publication.desired_velocity x ∷ ps) (h, hs) =
      torques_of-All limit ps hs
  torques_of-All limit (Velocity.Publication.measured_velocity x ∷ ps) (h, hs) =
      torques_of-All limit ps hs
  torques_of-All limit (Velocity.Publication.velocity_error x ∷ ps) (h, hs) =
      torques_of-All limit ps hs
  torques_of-All limit (Velocity.Publication.measured_position x ∷ ps) (h, hs) =
      torques_of-All limit ps hs
  torques_of-All limit (Velocity.Publication.position_error x ∷ ps) (h, hs) =
      torques_of-All limit ps hs
  torques_of-All limit (Velocity.Publication.position_command x ∷ ps) (h, hs) =
      torques_of-All limit ps hs
  torques_of-All limit (Velocity.Publication.velocity_command x ∷ ps) (h, hs) =
      torques_of-All limit ps hs

module _ {T F : Type 0} ⦃d : Double F⦄ ⦃clock : Clock T F⦄ (laws : IsIeee F) where
  -- Any event of the velocity node.
  pub torques-Bounded :
      (s : VelocityNode T F) (e : Velocity.Event T F)
      → IsTuned s.params
      → All (Bounded s.params.torque_limit_nm) (torques_of (Velocity.step s e).1)
  unfolding Velocity.step
  torques-Bounded s (Velocity.Event.joint_state msg) v = tt
  torques-Bounded s (Velocity.Event.parameters ps) v = tt
  torques-Bounded s (Velocity.Event.timer now) v =
      torques_of-All s.params.torque_limit_nm _ (control_loop-Bounded laws s now v.torque_pos)

  -- A tick of the mixer whose inputs were sent.
  pub tick-Mixed :
      (m : Mixer T F) (now : T) (torques loads : List F)
      → Sent torques m.tau_pid
      → Sent loads m.tau_hydro
      → Mixed m.hard_clip_nm torques loads (Mixer.tick m now)
  unfolding Mixer.tick effective_pid effective_load
  tick-Mixed m now torques loads p l =
      (effective_pid m now, effective_load m now, ground (arith, p), ground (arith, l), refl)

module _ {F : Type 0} ⦃d : Double F⦄ where
  pub Bounded-Within : (clip x : F) (o : Option F) → Bounded clip x → LoadWithin clip o x
  Bounded-Within clip x none h = h
  Bounded-Within clip x (some limit) h = inl h

module _ {F V K : Type 0} ⦃d : Double F⦄ where
  AdapterBounds-Within :
      (clip x : F) (o : Option (Adapter V K F))
      → AdapterBounds o x
      → LoadWithin clip (adapter_clip o) x
  unfolding AdapterBounds
  AdapterBounds-Within clip x none h = absurd h
  AdapterBounds-Within clip x (some a) h = inr h

module _ {T F W V K : Type 0} ⦃d : Double F⦄ where
  abbrev pub Within : FlapSim T F W V K → F → Type 0
  Within s x = LoadWithin s.hil.hil_torque_clip_nm (adapter_clip s.hydro_adapter) x

  LoadClipped-Within : (s : FlapSim T F W V K) (x : F) → LoadClipped s (load_torque x) → Within s x
  LoadClipped-Within s x (inl h) = Bounded-Within _ x (adapter_clip s.hydro_adapter) h
  LoadClipped-Within s x (inr h) = AdapterBounds-Within _ x s.hydro_adapter h

  loads_of-All :
      (s : FlapSim T F W V K) (ps : List (Publication F))
      → All (LoadClipped s) ps
      → All (Within s) (loads_of ps)
  loads_of-All s [] h = tt
  loads_of-All s (load_torque x ∷ ps) (h, hs) = (LoadClipped-Within s x h, loads_of-All s ps hs)
  loads_of-All s (Publication.hydro_torque_raw x ∷ ps) (h, hs) = loads_of-All s ps hs
  loads_of-All s (Publication.hydro_torque x ∷ ps) (h, hs) = loads_of-All s ps hs
  loads_of-All s (Publication.wave_elevation x ∷ ps) (h, hs) = loads_of-All s ps hs
  loads_of-All s (Publication.hydro_clip_engaged_pct x ∷ ps) (h, hs) = loads_of-All s ps hs
  loads_of-All s (Publication.sim_position x ∷ ps) (h, hs) = loads_of-All s ps hs
  loads_of-All s (Publication.sim_velocity x ∷ ps) (h, hs) = loads_of-All s ps hs
  loads_of-All s (Publication.sim_acceleration x ∷ ps) (h, hs) = loads_of-All s ps hs
  loads_of-All s (Publication.shadow_torque x ∷ ps) (h, hs) = loads_of-All s ps hs
  loads_of-All s (Publication.sim_joint_state x v ∷ ps) (h, hs) = loads_of-All s ps hs
  loads_of-All s (Publication.joint_state x v u ∷ ps) (h, hs) = loads_of-All s ps hs

module _ {T F W V K : Type 0} ⦃d : Double F⦄ ⦃clock : Clock T F⦄ ⦃c : Chrono W F⦄
    ⦃k : Coupling W V K F⦄ (laws : IsIeee F) where
  -- Any event of the flap node.
  pub loads-Within :
      (s : FlapSim T F W V K) (e : Event T F)
      → IsValid s
      → is_nan s.hil.hil_torque_clip_nm ≡ false
      → All (Within s) (loads_of (step s e).1)
  unfolding step run
  loads-Within s (tick now) v real = loads_of-All s _ (run-pass-LoadClipped laws s [] now v real)
  loads-Within s (effort_command xs) v real = tt
  loads-Within s (position_command x) v real = tt
  loads-Within s (velocity_command x) v real = tt
  loads-Within s (hw_joint_state msg) v real = tt
  loads-Within s (engage_request on now) v real = tt
  loads-Within s (enable_hydro_request on) v real = tt
  loads-Within s (parameters ps) v real = tt
