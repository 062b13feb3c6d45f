-- ===== src/Flap/Stale.antt =====
-- The load torque in the mode `hil` when the hardware's joint states are missing or too old.
use marine_robotics_hil_sea.Base.{◌≡◌, refl, true, false, Option, none, some, List, All, arith}
use mathlib.Core.Path.{subst}
use marine_robotics_hil_sea.Chrono.{Chrono}
use marine_robotics_hil_sea.Flap.Defs.{
  FlapNode, Publication, load_torque, hydro_torque, hydro_torque_raw, feedback_ok, hydro_result,
  load, hil_pass,
}
use marine_robotics_hil_sea.Flap.Node.{Event, run, is_hil}
use marine_robotics_hil_sea.Flap.Simulate.{hil_hydro, hil_node_pass, pass}
use marine_robotics_hil_sea.Flap.State.{FlapSim}
use marine_robotics_hil_sea.Float.{Double, ◌<?◌, f0}
use marine_robotics_hil_sea.Hydro.{Coupling}
use marine_robotics_hil_sea.Ros.{Clock}
use marine_robotics_hil_sea.Flap.Feedback.{
  or_older, or_older-none, last_stamp, held_stamp, Fed, run-Fed,
}

module _ {F : Type 0} ⦃d : Double F⦄ where
  -- Neither a load torque nor a hydrodynamic torque other than 0.0.
  abbrev pub IsStill : Publication F → Type 0
  IsStill (load_torque x) = x ≡ f0
  IsStill (hydro_torque_raw x) = x ≡ f0
  IsStill (hydro_torque x) = x ≡ f0
  IsStill _ = Unit {0}

module _ {T F : Type 0} ⦃d : Double F⦄ ⦃clock : Clock T F⦄ where
  -- There is no stamp, or at this time it is older than the timeout.
  abbrev pub IsStale : F → T → Option T → Type 0
  IsStale timeout now none = Unit {0}
  IsStale timeout now (some t) = (timeout <? clock.since now t) ≡ true

  stale_feedback :
      (o : Option T) (h : FlapNode T F) (now : T)
      → held_stamp h ≡ o
      → IsStale h.hil_feedback_timeout_s now o
      → feedback_ok h now ≡ false
  unfolding feedback_ok
  stale_feedback none h now fed stale = ground (arith, fed)
  stale_feedback (some t) h now fed stale = ground (arith, fed, stale)

  hil_pass-IsStill :
      (h : FlapNode T F) (now : T) → feedback_ok h now ≡ false → All IsStill (hil_pass h now none).1
  unfolding hil_pass load hydro_result
  hil_pass-IsStill h now silent =
      rw silent (refl, (refl, (refl, (tt, (tt, (tt, (tt, (tt, (tt, (tt, tt))))))))))

module _ {T F W V K : Type 0} ⦃d : Double F⦄ ⦃clock : Clock T F⦄ ⦃c : Chrono W F⦄
    ⦃k : Coupling W V K F⦄ where
  -- What is published is no load torque and no hydrodynamic torque other than 0.0, and the adapter and
  -- the world are the same.
  pub record Stands (s : FlapSim T F W V K) (next : FlapSim T F W V K × List (Publication F))
      : Type 0 where
    pub still : All IsStill next.1
    pub adapter : next.0.hydro_adapter ≡ s.hydro_adapter
    pub world : next.0.world ≡ s.world

  hil_hydro-off :
      (s : FlapSim T F W V K) (now : T)
      → feedback_ok s.hil now ≡ false
      → hil_hydro s now ≡ (s, none)
  unfolding hil_hydro
  hil_hydro-off s now silent = rw silent refl

  pass-Stands :
      (s : FlapSim T F W V K) (now : T)
      → is_hil s ≡ true
      → feedback_ok s.hil now ≡ false
      → Stands s (pass s now)
  unfolding pass hil_node_pass
  pass-Stands s now mode silent =
      rw (mode, hil_hydro-off s now silent)
        (record { still = hil_pass-IsStill s.hil now silent; adapter = refl; world = refl })

  -- In the mode hil, from a state on that holds no measured joint state, whatever messages, requests,
  -- parameter changes and passes follow each other: if no joint state among them names the joint, or
  -- at the time of a further pass the stamp of the last one that does is older than the feedback
  -- timeout in force, every load torque and hydrodynamic torque that this pass publishes is 0.0, and it
  -- leaves the adapter and the simulated world as they are.
  pub run-pass-Stands :
      (s : FlapSim T F W V K) (es : List (Event T F)) (now : T)
      → is_hil s ≡ true
      → s.hil.hw_received ≡ false
      → IsStale (run s es).hil.hil_feedback_timeout_s now (last_stamp s.hil.joint_name es)
      → Stands (run s es) (pass (run s es) now)
  run-pass-Stands s es now mode unfed stale =
      let name = s.hil.joint_name in
      let start : Fed name none s = record { mode = mode; named = refl; fed = rw unfed refl } in
      let v = run-Fed name none s es start in
      let last : or_older (last_stamp name es) none ≡ last_stamp name es =
        or_older-none (last_stamp name es) in
      let fed = subst (λ x. held_stamp (run s es).hil ≡ x) last v.fed in
      let silent = stale_feedback (last_stamp name es) (run s es).hil now fed stale in
      pass-Stands (run s es) now v.mode silent
