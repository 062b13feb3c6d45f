-- ===== src/System/Network.antt =====
-- The whole stack: the velocity node, the flap node, the mixer, the motor's axis and the three topics
-- between them, interleaved in any order. A message of a topic arrives late, again or never.
use marine_robotics_hil_sea.Base.{
  ℕ, ◌≡◌, Bool, Option, none, some, List, [], ◌∷◌, ◌++◌, String, get_elem?,
}
use marine_robotics_hil_sea.Chrono.{Chrono}
use marine_robotics_hil_sea.Flap.{Publication, load_torque}
use marine_robotics_hil_sea.Flap.Node
use marine_robotics_hil_sea.Flap.Node.{Event, step}
use marine_robotics_hil_sea.Flap.State.{FlapSim}
use marine_robotics_hil_sea.Float.{Double}
use marine_robotics_hil_sea.Hydro.{Adapter, Coupling}
use marine_robotics_hil_sea.Mixer
use marine_robotics_hil_sea.Mixer.{
  Mixer, pid_message, load_message, enable_load_request, parameters, timer,
}
use marine_robotics_hil_sea.Odrive.{Frame, Axis, Narrow, Junk, receive, switch_axis}
use marine_robotics_hil_sea.Ros.{Clock, Parameter}
use marine_robotics_hil_sea.Velocity
use marine_robotics_hil_sea.Velocity.{VelocityNode, torque_command}

pub record Network (T F W V K : Type 0) : Type 0 where
  pub node : VelocityNode T F
  pub flap : FlapSim T F W V K
  pub mixer : Mixer T F
  pub motor : Axis F
  pub pid_torques : List F
  pub loads : List F
  pub commands : List F

module _ {F : Type 0} where
  -- The messages on the topic of the PID torque, and on that of the load.
  abbrev pub torques_of : List (Velocity.Publication F) → List F
  torques_of [] = []
  torques_of (torque_command x ∷ ps) = x ∷ torques_of ps
  torques_of (_ ∷ ps) = torques_of ps

  abbrev pub loads_of : List (Publication F) → List F
  loads_of [] = []
  loads_of (load_torque x ∷ ps) = x ∷ loads_of ps
  loads_of (_ ∷ ps) = loads_of ps

module _ {F V K : Type 0} where
  abbrev pub adapter_clip : Option (Adapter V K F) → Option F
  adapter_clip none = none
  adapter_clip (some a) = some a.torque_clip_nm

-- A condition on the changes of parameters only.
abbrev pub IfTuned : {T F : Type 0} → Velocity.Event T F → Type 0 → Type 0
IfTuned (Velocity.Event.parameters ps) P = P
IfTuned _ P = Unit

abbrev pub IfSet : {T F : Type 0} → Event T F → Type 0 → Type 0
IfSet (Node.Event.parameters ps) P = P
IfSet _ P = Unit

module _ {T F W V K : Type 0} where
  -- The clips of the load and of the adapter.
  abbrev pub clips : FlapSim T F W V K → F × Option F
  clips s = (s.hil.hil_torque_clip_nm, adapter_clip s.hydro_adapter)

  -- The limits of the three nodes: of the PID torque, the clips of the load, and the hard clip.
  abbrev pub limits : Network T F W V K → F × (F × Option F) × F
  limits s = (s.node.params.torque_limit_nm, clips s.flap, s.mixer.hard_clip_nm)

module _ {T F W V K : Type 0} ⦃d : Double F⦄ ⦃clock : Clock T F⦄ ⦃c : Chrono W F⦄
    ⦃k : Coupling W V K F⦄ ⦃n : Narrow F⦄ (junk : Junk) where
  -- Any event of the velocity node, any event of the flap node, and what the mixer publishes.
  abbrev pub controlled : Velocity.Event T F → Network T F W V K → Network T F W V K
  controlled e s = record s {
    node = (Velocity.step s.node e).0;
    pid_torques = s.pid_torques ++ torques_of (Velocity.step s.node e).1;
  }

  abbrev pub simulated : Event T F → Network T F W V K → Network T F W V K
  simulated e s = record s {
    flap = (step s.flap e).0;
    loads = s.loads ++ loads_of (step s.flap e).1;
  }

  abbrev pub mixed : Mixer.Event T F → Network T F W V K → Network T F W V K
  mixed e s = record s {
    mixer = (Mixer.step s.mixer e).0;
    commands = s.commands ++ (Mixer.step s.mixer e).1;
  }

  -- The steps; no parameter change moves a limit.
  pub data Step (s : Network T F W V K) : Network T F W V K → Type 0 where
    controls :
        (e : Velocity.Event T F)
        → IfTuned e
            ((Velocity.step s.node e).0.params.torque_limit_nm ≡ s.node.params.torque_limit_nm)
        → Step s (controlled e s)
    simulates :
        (e : Event T F) → IfSet e (clips (step s.flap e).0 ≡ clips s.flap) → Step s (simulated e s)
    hears_pid :
        (i : ℕ) (now : T) {x : F}
        → get_elem? s.pid_torques i ≡ some x
        → Step s (mixed (pid_message (x ∷ []) now) s)
    hears_load :
        (i : ℕ) (now : T) {x : F}
        → get_elem? s.loads i ≡ some x
        → Step s (mixed (load_message x now) s)
    switches_load : (on : Bool) → Step s (mixed (enable_load_request on) s)
    tunes_mixer :
        (ps : List (Parameter F))
        → (Mixer.step s.mixer (parameters ps)).0.hard_clip_nm ≡ s.mixer.hard_clip_nm
        → Step s (mixed (parameters ps) s)
    mixes : (now : T) → Step s (mixed (timer now) s)
    delivers :
        (i : ℕ) {x : F}
        → get_elem? s.commands i ≡ some x
        → Step s (record s { motor = record s.motor { torque_setpoint = x } })
    switches :
        (active : Bool) (start stop : List String)
        → Step s (record s { motor = (switch_axis junk active start stop s.motor).0 })
    receives : (frame : Frame) → Step s (record s { motor = receive frame s.motor })

  pub data Reach (s0 : Network T F W V K) : Network T F W V K → Type 0 where
    at_start : Reach s0 s0
    later : {s t : Network T F W V K} → Reach s0 s → Step s t → Reach s0 t
