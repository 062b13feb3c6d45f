-- ===== src/System/Origin.antt =====
-- The torque of the drive, traced back through the stack.
use marine_robotics_hil_sea.Base.{
  ◌≡◌, sym, ◌∙◌, ap, inr, true, false, List, [], ◌∷◌, ◌++◌, All, All-append,
}
use mathlib.Core.Path.{subst}
use marine_robotics_hil_sea.Chrono.{Chrono}
use marine_robotics_hil_sea.Float.{Double, IsIeee, is_nan, Bounded}
use marine_robotics_hil_sea.Flap.Node
use marine_robotics_hil_sea.Flap.Reach.{run-IsValid}
use marine_robotics_hil_sea.Flap.Tuning.{IsValid}
use marine_robotics_hil_sea.Hydro.{Coupling}
use marine_robotics_hil_sea.Mixer
use marine_robotics_hil_sea.Mixer.{Mixer}
use marine_robotics_hil_sea.Mixer.History.{set_parameters-IsAssigned}
use marine_robotics_hil_sea.Odrive.{Axis, Narrow, Junk, switch_axis}
use marine_robotics_hil_sea.Ros.{Clock}
use marine_robotics_hil_sea.System.Drive.{receive-torque_setpoint, set_inputs-torque_setpoint}
use marine_robotics_hil_sea.System.Network.{
  Network, limits, Step, controls, simulates, hears_pid, hears_load, switches_load, tunes_mixer,
  mixes, delivers, switches, receives, Reach, at_start, later, torques_of, loads_of,
}
use marine_robotics_hil_sea.System.Steady.{controls-steady, simulates-steady}
use marine_robotics_hil_sea.System.Trace.{
  Sent, LoadWithin, Mixed, Sent-++, Mixed-torques, Mixed-loads, All-mono, torques-Bounded,
  loads-Within, tick-Mixed,
}
use marine_robotics_hil_sea.Velocity
use marine_robotics_hil_sea.Velocity.Tuning.{IsTuned, run-IsTuned}

module _ {T F W V K : Type 0} ⦃d : Double F⦄ where
  -- The limits are those of the start, the nodes are tuned, the topics carry what is within the
  -- limits, and each value further down was made of messages further up.
  pub record IsTraced (s0 s : Network T F W V K) : Type 0 where
    pub same : limits s ≡ limits s0
    pub tuned : IsTuned s.node.params
    pub valid : IsValid s.flap
    pub torques_bounded : All (Bounded (limits s0).0) s.pid_torques
    pub loads_bounded : All (LoadWithin (limits s0).1.0 (limits s0).1.1) s.loads
    pub pid_sent : Sent s.pid_torques s.mixer.tau_pid
    pub load_sent : Sent s.loads s.mixer.tau_hydro
    pub commands_mixed : All (Mixed (limits s0).2 s.pid_torques s.loads) s.commands
    pub setpoint_sent : Sent s.commands s.motor.torque_setpoint

module _ {T F W V K : Type 0} ⦃d : Double F⦄ (s0 s : Network T F W V K) where
  -- A new state of the mixer whose inputs were sent, and new commands that were made of them.
  mixer-IsTraced :
      (m : Mixer T F) (sent : List F)
      → IsTraced s0 s
      → limits (record s { mixer = m }) ≡ limits s0
      → Sent s.pid_torques m.tau_pid
      → Sent s.loads m.tau_hydro
      → All (Mixed (limits s0).2 s.pid_torques s.loads) sent
      → IsTraced s0 (record s { mixer = m; commands = s.commands ++ sent })
  mixer-IsTraced m sent v same pid load made = record {
    same = same;
    tuned = v.tuned;
    valid = v.valid;
    torques_bounded = v.torques_bounded;
    loads_bounded = v.loads_bounded;
    pid_sent = pid;
    load_sent = load;
    commands_mixed = All-append _ s.commands sent v.commands_mixed made;
    setpoint_sent = Sent-++ s.commands sent _ v.setpoint_sent;
  }

  -- A new state of the axis whose setpoint was sent.
  motor-IsTraced :
      (m : Axis F)
      → IsTraced s0 s
      → Sent s.commands m.torque_setpoint
      → IsTraced s0 (record s { motor = m })
  motor-IsTraced m v sent = record {
    same = v.same;
    tuned = v.tuned;
    valid = v.valid;
    torques_bounded = v.torques_bounded;
    loads_bounded = v.loads_bounded;
    pid_sent = v.pid_sent;
    load_sent = v.load_sent;
    commands_mixed = v.commands_mixed;
    setpoint_sent = sent;
  }

module _ {T F W V K : Type 0} ⦃d : Double F⦄ ⦃clock : Clock T F⦄ ⦃c : Chrono W F⦄
    ⦃k : Coupling W V K F⦄ ⦃n : Narrow F⦄ (junk : Junk) (laws : IsIeee F)
    (s0 : Network T F W V K) where
  Step-IsTraced :
      {s t : Network T F W V K}
      → is_nan (limits s0).1.0 ≡ false
      → IsTraced s0 s
      → Step junk s t
      → IsTraced s0 t
  unfolding Velocity.run Node.run Mixer.step Mixer.on_pid Mixer.on_load Mixer.on_enable_load
      switch_axis
  Step-IsTraced {s} real v (controls e same) =
      let sent = torques_of (Velocity.step s.node e).1 in
      let steady = controls-steady s.node e same in
      record {
        same = ap (λ l. (l, (limits s).1, (limits s).2)) steady ∙ v.same;
        tuned = run-IsTuned s.node (e ∷ []) v.tuned;
        valid = v.valid;
        torques_bounded = All-append _ s.pid_torques sent v.torques_bounded (
            subst (λ l. All (Bounded l) sent) (ap (λ l. l.0) v.same)
              (torques-Bounded laws s.node e v.tuned));
        loads_bounded = v.loads_bounded;
        pid_sent = Sent-++ s.pid_torques sent _ v.pid_sent;
        load_sent = v.load_sent;
        commands_mixed =
            All-mono _ _ s.commands (Mixed-torques (limits s0).2 s.pid_torques sent s.loads)
              v.commands_mixed;
        setpoint_sent = v.setpoint_sent;
      }
  Step-IsTraced {s} real v (simulates e same) =
      let sent = loads_of (Node.step s.flap e).1 in
      let known = subst (λ l. is_nan l.1.0 ≡ false) (sym v.same) real in
      let steady = simulates-steady s.flap e same in
      record {
        same = ap (λ l. ((limits s).0, l, (limits s).2)) steady ∙ v.same;
        tuned = v.tuned;
        valid = run-IsValid laws s.flap (e ∷ []) v.valid;
        torques_bounded = v.torques_bounded;
        loads_bounded = All-append _ s.loads sent v.loads_bounded (
            subst (λ l. All (LoadWithin l.1.0 l.1.1) sent) v.same
              (loads-Within laws s.flap e v.valid known));
        pid_sent = v.pid_sent;
        load_sent = Sent-++ s.loads sent _ v.load_sent;
        commands_mixed =
            All-mono _ _ s.commands (Mixed-loads (limits s0).2 s.pid_torques s.loads sent)
              v.commands_mixed;
        setpoint_sent = v.setpoint_sent;
      }
  Step-IsTraced {s} real v (hears_pid i now {x} found) =
      mixer-IsTraced s0 s _ [] v v.same (inr (i, found)) v.load_sent tt
  Step-IsTraced {s} real v (hears_load i now {x} found) =
      mixer-IsTraced s0 s _ [] v v.same v.pid_sent (inr (i, found)) tt
  Step-IsTraced {s} real v (switches_load on) =
      mixer-IsTraced s0 s _ [] v v.same v.pid_sent v.load_sent tt
  Step-IsTraced {s} real v (tunes_mixer ps same) =
      let kept = set_parameters-IsAssigned ps s.mixer in
      mixer-IsTraced s0 s _ [] v (ap (λ l. ((limits s).0, (limits s).1, l)) same ∙ v.same)
        (subst (Sent s.pid_torques) (sym kept.pid_same) v.pid_sent)
        (subst (Sent s.loads) (sym kept.load_same) v.load_sent) tt
  Step-IsTraced {s} real v (mixes now) =
      let made = tick-Mixed laws s.mixer now s.pid_torques s.loads v.pid_sent v.load_sent in
      mixer-IsTraced s0 s s.mixer (Mixer.tick s.mixer now ∷ []) v v.same v.pid_sent v.load_sent
        (subst (λ l. Mixed l.2 s.pid_torques s.loads (Mixer.tick s.mixer now)) v.same made, tt)
  Step-IsTraced {s} real v (delivers i {x} found) = motor-IsTraced s0 s _ v (inr (i, found))
  Step-IsTraced {s} real v (switches active start stop) = motor-IsTraced s0 s _ v (
      subst (Sent s.commands)
        (sym (
          set_inputs-torque_setpoint true start _ _
          ∙ set_inputs-torque_setpoint false stop s.motor false))
        v.setpoint_sent)
  Step-IsTraced {s} real v (receives frame) =
      motor-IsTraced s0 s _ v
        (subst (Sent s.commands) (sym (receive-torque_setpoint frame s.motor)) v.setpoint_sent)

  pub Reach-IsTraced :
      {s : Network T F W V K}
      → is_nan (limits s0).1.0 ≡ false
      → IsTraced s0 s0
      → Reach junk s0 s
      → IsTraced s0 s
  Reach-IsTraced real v at_start = v
  Reach-IsTraced real v (later r next) = Step-IsTraced real (Reach-IsTraced real v r) next
