-- ===== src/Flap/ShadowMembers.antt =====
-- The members that the validation tests, in every state that the flap node reaches.
use marine_robotics_hil_sea.Base.{List, arith}
use marine_robotics_hil_sea.Chrono.{Chrono}
use marine_robotics_hil_sea.Flap.Held.{Held, Keeps, run-Held}
use marine_robotics_hil_sea.Flap.Node.{Event, run}
use marine_robotics_hil_sea.Flap.Reach.{run-IsValid}
use marine_robotics_hil_sea.Flap.ShadowStore.{
  StoreTuned, ControllerTuned, put_parameters-StoreTuned, read_shadow_params-Tuned,
}
use marine_robotics_hil_sea.Flap.Simulate.{shadow_step, torque_command}
use marine_robotics_hil_sea.Flap.State.{FlapSim}
use marine_robotics_hil_sea.Flap.Tuning.{IsValid}
use marine_robotics_hil_sea.Float.{Double, IsIeee, f0}
use marine_robotics_hil_sea.Hydro.{Coupling}
use marine_robotics_hil_sea.Ros.{Clock}
use marine_robotics_hil_sea.Shadow
use marine_robotics_hil_sea.Shadow.{ShadowPidController}

module _ {F : Type 0} ⦃d : Double F⦄ where
  compute-Tuned :
      (position velocity t dt : F) (c : ShadowPidController F)
      → ControllerTuned c
      → ControllerTuned (Shadow.compute position velocity t dt c).0
  unfolding Shadow.compute Shadow.dispatch Shadow.run_inner_loop Shadow.run_position_only
      Shadow.run_outer_loop Shadow.outer_tick Shadow.filter_velocity Shadow.apply_gains
  compute-Tuned position velocity t dt c v = ground (arith, v)

  compute_external-Tuned :
      (position velocity pos_ref vel_ref dt : F) (c : ShadowPidController F)
      → ControllerTuned c
      → ControllerTuned (Shadow.compute_external position velocity pos_ref vel_ref dt c).0
  unfolding Shadow.compute_external Shadow.dispatch Shadow.run_inner_loop Shadow.run_position_only
      Shadow.run_outer_loop Shadow.outer_tick Shadow.filter_velocity Shadow.apply_gains
  compute_external-Tuned position velocity pos_ref vel_ref dt c v = ground (arith, v)

module _ {T F W V K : Type 0} ⦃d : Double F⦄ where
  torque_command-Tuned :
      (s : FlapSim T F W V K) (t : F)
      → ControllerTuned s.shadow_pid
      → ControllerTuned (torque_command s t).0
  unfolding torque_command shadow_step
  torque_command-Tuned s t v =
      let position = s.hil.sim_position in
      let velocity = s.hil.sim_velocity in
      let dt = s.hil.publish_dt in
      ground (
        arith,
        v,
        compute-Tuned position velocity t dt s.shadow_pid v,
        compute_external-Tuned position velocity s.shadow_ext_pos_ref s.shadow_ext_vel_ref dt
            s.shadow_pid v,
        compute_external-Tuned position velocity f0 f0 dt s.shadow_pid v,
      )

  keeps-Tuned : Keeps T F W V K StoreTuned ControllerTuned
  keeps-Tuned = record {
    put = put_parameters-StoreTuned;
    reread = read_shadow_params-Tuned;
    called = torque_command-Tuned;
  }

module _ {T F W V K : Type 0} ⦃d : Double F⦄ ⦃clock : Clock T F⦄ ⦃c : Chrono W F⦄
    ⦃k : Coupling W V K F⦄ (laws : IsIeee F) where
  -- Whatever messages, requests, parameter changes and passes follow each other, in any mode, from
  -- a state in which this holds: the torque clip, the feedback timeout, the clip of the hydrodynamics and
  -- the flap's length, mass and width are not refused as not positive; the joint's and the load
  -- law's tested coefficients and the ramp time are not refused as negative; the clip of the adapter,
  -- if there is one, is positive; and, among the parameters and in the shadow controller alike, the
  -- torque limit, the limits of the position loop's integral and output and the divider are not
  -- refused as not positive, the filter's alpha is neither below 0 nor from 1 on, and the
  -- control mode is one of the three.
  pub run-members :
      (s : FlapSim T F W V K) (es : List (Event T F))
      → IsValid s
      → Held StoreTuned ControllerTuned s
      → IsValid (run s es) × Held StoreTuned ControllerTuned (run s es)
  run-members s es v h =
      (run-IsValid laws s es v, run-Held StoreTuned ControllerTuned keeps-Tuned s es h)
