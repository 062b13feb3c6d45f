-- ===== src/Flap/Simulate.antt =====
-- One pass of the loop in `run`, in the modes sil and parallel and, with the calls of the adapter, in
-- the mode hil. The visualisation and the pause at the end of a pass are left out.
use marine_robotics_hil_sea.Base.{
  ℕ, zero, suc, ◌&&◌, Option, none, some, List, [], ◌∷◌, str_eq, if◌then◌else◌,
}
use marine_robotics_hil_sea.Base.Int.{pos_part}
use marine_robotics_hil_sea.Chrono.{Chrono}
use marine_robotics_hil_sea.Flap.Defs.{
  Publication, hydro_torque_raw, hydro_torque, wave_elevation, hydro_clip_engaged_pct,
  shadow_torque, sim_joint_state, joint_state, record_clip, clip_engaged_pct, telemetry,
  feedback_ok, hil_pass,
}
use marine_robotics_hil_sea.Flap.State.{FlapSim}
use marine_robotics_hil_sea.Float.{Double, ◌⊕◌, ◌⊖◌, ◌⊗◌, ◌⊘◌, ◌<?◌, neg, f0, f1}
use marine_robotics_hil_sea.Hydro.{Adapter, Coupling, HydroStepResult, step}
use marine_robotics_hil_sea.Ros.{Clock}
use marine_robotics_hil_sea.Shadow.{ShadowPidController, compute, compute_external}

module _ {T F W V K : Type 0} ⦃d : Double F⦄ where
  -- The torque law of a substep.
  unfoldable pub total_torque : FlapSim T F W V K → F → F → F → F
  total_torque s torque_cmd angle omega =
      let total_damping = s.joint_damping ⊕ s.bearing_friction in
      let sign = if f0 <? omega then f1 else if omega <? f0 then neg f1 else f0 in
      let coulomb = s.coulomb_friction ⊗ sign in
      torque_cmd ⊖ total_damping ⊗ omega ⊖ coulomb ⊖ s.joint_stiffness ⊗ angle

  unfoldable pub substep : ⦃c : Chrono W F⦄ → FlapSim T F W V K → F → W → W
  substep ⦃c⦄ s torque_cmd w =
      c.do_step_dynamics s.solver_dt
        (c.set_setpoint (total_torque s torque_cmd (c.motor_angle w) (c.motor_angle_dt w)) w)

  -- The rounds of the substep loop.
  unfoldable pub substep_loop : ⦃c : Chrono W F⦄ → ℕ → FlapSim T F W V K → F → W → W
  substep_loop zero s torque_cmd w = w
  substep_loop (suc n) s torque_cmd w = substep_loop n s torque_cmd (substep s torque_cmd w)

  -- The shadow controller on the references of the mode of synchronisation, at the time t.
  unfoldable pub shadow_step : FlapSim T F W V K → F → ShadowPidController F × F
  shadow_step s t =
      let position = s.hil.sim_position in
      let velocity = s.hil.sim_velocity in
      let dt = s.hil.publish_dt in
      if s.shadow_sync_trajectory
      then (if s.shadow_pos_ref_received && s.shadow_vel_ref_received
          then compute_external position velocity s.shadow_ext_pos_ref s.shadow_ext_vel_ref dt
              s.shadow_pid
          else compute_external position velocity f0 f0 dt s.shadow_pid)
      else compute position velocity t dt s.shadow_pid

  -- The new controller, the shadow torque and the torque command.
  unfoldable pub torque_command : FlapSim T F W V K → F → ShadowPidController F × F × F
  torque_command s t =
      if s.use_shadow_pid
      then (let (c, torque) = shadow_step s t in (c, torque, torque))
      else (s.shadow_pid, f0, s.latest_torque)

  -- `hydro_adapter_->step` on a world, if there is an adapter.
  unfoldable pub adapter_step :
      ⦃c : Chrono W F⦄
      → ⦃k : Coupling W V K F⦄ → Option (Adapter V K F)
      → F
      → W
      → FlapSim T F W V K
      → FlapSim T F W V K × Option (HydroStepResult F)
  adapter_step none t w s = (s, none)
  adapter_step (some a) t w s =
      let ((a', w'), r) = step t s.hil.publish_dt a w in
      (record s { hydro_adapter = some a'; world = w' }, some r)

  module _ ⦃clock : Clock T F⦄ ⦃c : Chrono W F⦄ ⦃k : Coupling W V K F⦄ where
    -- The pass in the modes sil and parallel.
    unfoldable pub sim_pass : FlapSim T F W V K → T → FlapSim T F W V K × List (Publication F)
    sim_pass s now =
        let t = clock.since now s.hil.start_time in
        let (controller, shadow, torque_cmd) = torque_command s t in
        let (s1, called) =
          if s.hil.hydro_engaged then adapter_step s.hydro_adapter t s.world s else (s, none) in
        let r = telemetry called in
        let history = record_clip s.hil.clip_engaged_history r.was_clipped in
        let w = substep_loop (pos_part s.substeps) s torque_cmd s1.world in
        let pos = c.motor_angle w in
        let vel = c.motor_angle_dt w in
        let acc = (vel ⊖ s.hil.sim_velocity) ⊘ s.hil.publish_dt in
        (
          record s1 {
            shadow_pid = controller;
            world = w;
            hil = record s.hil {
              clip_engaged_history = history;
              sim_position = pos;
              sim_velocity = vel;
              sim_acceleration = acc;
            };
          },
          hydro_torque_raw r.torque_raw_nm
              ∷ hydro_torque r.torque_clip_nm
              ∷ wave_elevation r.wave_eta_m
              ∷ hydro_clip_engaged_pct (clip_engaged_pct history)
              ∷ Publication.sim_position pos
              ∷ Publication.sim_velocity vel
              ∷ Publication.sim_acceleration acc
              ∷ shadow_torque shadow
              ∷ (if str_eq s.mode "sil"
                  then joint_state pos vel s.latest_torque
                  else sim_joint_state pos vel)
              ∷ [],
        )

    -- The adapter in the mode hil: with good feedback, the flap's body takes the measured state.
    unfoldable pub hil_hydro :
        FlapSim T F W V K → T → FlapSim T F W V K × Option (HydroStepResult F)
    hil_hydro s now =
        let t = clock.seconds now ⊖ clock.seconds s.hil.start_time in
        let placed =
          c.set_ang_vel_parent f0 s.hil.hw_vel f0 (c.set_rot_about_pivot s.hil.hw_pos s.world) in
        if feedback_ok s.hil now && s.hil.hydro_engaged
        then adapter_step s.hydro_adapter t placed s
        else (s, none)

    unfoldable pub hil_node_pass : FlapSim T F W V K → T → FlapSim T F W V K × List (Publication F)
    hil_node_pass s now =
        let (s1, called) = hil_hydro s now in
        let (hil, published) = hil_pass s1.hil now called in (record s1 { hil = hil }, published)

    unfoldable pub pass : FlapSim T F W V K → T → FlapSim T F W V K × List (Publication F)
    pass s now = if str_eq s.mode "hil" then hil_node_pass s now else sim_pass s now
