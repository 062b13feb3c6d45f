-- ===== src/Shadow/Replay.antt =====
-- Tick by tick the shadow controller replicates the control loop of the velocity node.
use marine_robotics_hil_sea.Base.{◌≡◌, refl, sym, ap, ap₂, ◌∙◌, false, arith, List, [], ◌∷◌}
use marine_robotics_hil_sea.Base.Int.{pos}
use marine_robotics_hil_sea.Float.{Double, f0}
use marine_robotics_hil_sea.Ros.{Clock}
use marine_robotics_hil_sea.Shadow.Defs.{ShadowPidController, dispatch, trajectory, compute}
use marine_robotics_hil_sea.Shadow.Mirror.{
  shadow_of, IsSynced, sample, apply_gains-shadow_of, trajectory-shadow_of, dispatch-shadow_of,
  filter-shadow_of, joint_state_callback-IsMeasured, dispatch-IsSynced,
}
use marine_robotics_hil_sea.Velocity
use marine_robotics_hil_sea.Velocity.Tuning.{control_loop-params}
use marine_robotics_hil_sea.Velocity.{
  VelocityNode, Params, JointState, Publication, torque_command, TrajectoryRef,
}

-- The torque that a tick commands.
abbrev pub commanded : {F : Type 0} ⦃d : Double F⦄ → List (Publication F) → F
commanded (torque_command x ∷ rest) = x
commanded _ = f0

module _ {F : Type 0} ⦃d : Double F⦄ where
  pub shadow_tick : ShadowPidController F → F × F × F × F → ShadowPidController F × F
  shadow_tick s (position, velocity, t, dt) = compute position velocity t dt s

  pub shadow_torques : ShadowPidController F → List (F × F × F × F) → List F
  unfolding shadow_tick
  shadow_torques s [] = []
  shadow_torques s (x ∷ xs) = (shadow_tick s x).1 ∷ shadow_torques (shadow_tick s x).0 xs

module _ {T F : Type 0} ⦃d : Double F⦄ ⦃clock : Clock T F⦄ where
  -- One period of the node: the joint state with a position and a velocity, and the timer's tick.
  pub node_tick : VelocityNode T F → F × F × T → VelocityNode T F × List (Publication F)
  node_tick v (position, velocity, now) =
      Velocity.control_loop (Velocity.joint_state_callback (sample v position velocity) v) now

  -- The arguments for the shadow's `compute`: the measurement, the elapsed time and the time step.
  pub shadow_call : VelocityNode T F → F × F × T → F × F × F × F
  shadow_call v (position, velocity, now) = (
    position,
    velocity,
    clock.since now v.start_time,
    Velocity.time_step (Velocity.joint_state_callback (sample v position velocity) v) now,
  )

  control_loop_found :
      (v : VelocityNode T F) (now : T)
      → v.joint_index ≡ pos 0
      → Velocity.control_loop v now ≡ Velocity.control v now
  unfolding Velocity.control_loop
  control_loop_found v now found = rw (ap Velocity.joint_missing found)

  mirror_control :
      (v : VelocityNode T F) (now : T)
      → v.last_measured_vel ≡ v.filtered_vel
      → (let r = trajectory (shadow_of v) (clock.since now v.start_time) in
          dispatch r.0 r.1 r.2 v.last_measured_pos (Velocity.time_step v now) (shadow_of v))
        ≡ (shadow_of (Velocity.control v now).0, commanded (Velocity.control v now).1)
  unfolding Velocity.control shadow_of
  mirror_control v now same =
      let v' = record v { last_loop_time = now } in
      let t = clock.since now v.start_time in
      rw (trajectory-shadow_of v' t)
        (dispatch-shadow_of v' (Velocity.compute_trajectory v' t) (Velocity.time_step v now) same)

  mirror_tick :
      (v : VelocityNode T F) (x : F × F × T)
      → IsSynced v
      → v.params.invert_output ≡ false
      → shadow_tick (shadow_of v) (shadow_call v x)
        ≡ (shadow_of (node_tick v x).0, commanded (node_tick v x).1)
  unfolding shadow_tick shadow_call node_tick compute
  mirror_tick v (position, velocity, now) sync plain =
      let v' = Velocity.joint_state_callback (sample v position velocity) v in
      let m = joint_state_callback-IsMeasured v position velocity plain in
      rw
        (
          apply_gains-shadow_of v sync,
          filter-shadow_of v position velocity plain,
          control_loop_found v' now m.found,
        )
        (ap₂
            (λ p start.
              let r = trajectory (shadow_of v') (clock.since now start) in
              dispatch r.0 r.1 r.2 p (Velocity.time_step v' now) (shadow_of v'))
            (sym m.position_eq) (sym m.start_eq)
          ∙ mirror_control v' now m.velocity_eq)

  -- The tick keeps what the next one needs.
  record IsReady (v : VelocityNode T F) : Type 0 where
    synced : IsSynced v
    plain : v.params.invert_output ≡ false

  control-IsSynced :
      (v : VelocityNode T F) (now : T) → IsSynced v → IsSynced (Velocity.control v now).0
  unfolding Velocity.control
  control-IsSynced v now h =
      let v' = record v { last_loop_time = now } in
      dispatch-IsSynced v' (Velocity.compute_trajectory v' (clock.since now v.start_time))
        (Velocity.time_step v now) (ground arith)

  node_tick-IsReady : (v : VelocityNode T F) (x : F × F × T) → IsReady v → IsReady (node_tick v x).0
  unfolding node_tick
  node_tick-IsReady v (position, velocity, now) h =
      let v' = Velocity.joint_state_callback (sample v position velocity) v in
      let m = joint_state_callback-IsMeasured v position velocity h.plain in
      let synced : IsSynced v' = ground (arith, m, h.synced) in
      rw (control_loop_found v' now m.found) (record {
        synced = control-IsSynced v' now synced;
        plain =
            ap (λ u. u.0.params.invert_output) (sym (control_loop_found v' now m.found))
            ∙ ap (λ p. p.invert_output) (control_loop-params v' now ∙ m.params_eq)
            ∙ h.plain;
      })

  -- The torques of the node over a sequence of periods, and of the shadow over its calls.
  pub node_torques : VelocityNode T F → List (F × F × T) → List F
  node_torques v [] = []
  node_torques v (x ∷ xs) = commanded (node_tick v x).1 ∷ node_torques (node_tick v x).0 xs

  pub shadow_calls : VelocityNode T F → List (F × F × T) → List (F × F × F × F)
  shadow_calls v [] = []
  shadow_calls v (x ∷ xs) = shadow_call v x ∷ shadow_calls (node_tick v x).0 xs

  replay :
      (v : VelocityNode T F) (xs : List (F × F × T))
      → IsReady v
      → shadow_torques (shadow_of v) (shadow_calls v xs) ≡ node_torques v xs
  unfolding shadow_torques shadow_calls node_torques
  replay v [] h = refl
  replay v (x ∷ xs) h =
      let e = mirror_tick v x h.synced h.plain in
      ap (λ u. u.1 ∷ shadow_torques u.0 (shadow_calls (node_tick v x).0 xs)) e
      ∙ ap (◌∷◌ (commanded (node_tick v x).1))
          (replay (node_tick v x).0 xs (node_tick-IsReady v x h))

  -- The shadow replicates the node: started with the node's gains and state, and called with the
  -- same measurements, elapsed times and time steps, it computes the same torques, period after
  -- period, in every control mode, if the node's output is not inverted.
  pub shadow_torques-eq-node_torques :
      (v : VelocityNode T F) (xs : List (F × F × T))
      → IsSynced v
      → v.params.invert_output ≡ false
      → shadow_torques (shadow_of v) (shadow_calls v xs) ≡ node_torques v xs
  shadow_torques-eq-node_torques v xs sync plain =
      replay v xs (record { synced = sync; plain = plain })
