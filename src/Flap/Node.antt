-- ===== src/Flap/Node.antt =====
-- The callbacks of the flap node and its loop as a sequence of events. A subscription or service
-- that the mode does not create is never called.
use marine_robotics_hil_sea.Base.{Bool, true, not, ◌&&◌, List, [], ◌∷◌, str_eq, if◌then◌else◌}
use marine_robotics_hil_sea.Chrono.{Chrono}
use marine_robotics_hil_sea.Flap.Apply.{set_parameters}
use marine_robotics_hil_sea.Flap.Defs.{
  HwJointState, Publication, load_torque, on_joint_state, on_engage, on_enable_hydro,
}
use marine_robotics_hil_sea.Flap.Simulate.{pass}
use marine_robotics_hil_sea.Flap.State.{FlapSim}
use marine_robotics_hil_sea.Float.{Double, f0}
use marine_robotics_hil_sea.Hydro.{Coupling}
use marine_robotics_hil_sea.Ros.{Clock, Parameter}

-- A callback that `spin_some` runs, or the rest of a pass.
pub data Event (T F : Type 0) : Type 0 where
  effort_command : List F → Event T F
  position_command velocity_command : F → Event T F
  hw_joint_state : HwJointState T F → Event T F
  engage_request : Bool → T → Event T F
  enable_hydro_request : Bool → Event T F
  parameters : List (Parameter F) → Event T F
  tick : T → Event T F

module _ {T F W V K : Type 0} where
  unfoldable pub on_effort : List F → FlapSim T F W V K → FlapSim T F W V K
  on_effort [] s = s
  on_effort (x ∷ xs) s = record s { latest_torque = x }

  abbrev pub is_hil : FlapSim T F W V K → Bool
  is_hil s = str_eq s.mode "hil"

  -- `shadow_sync_trajectory_ && mode_ != "hil"`
  abbrev pub syncs : FlapSim T F W V K → Bool
  syncs s = s.shadow_sync_trajectory && not (is_hil s)

  module _ ⦃d : Double F⦄ ⦃clock : Clock T F⦄ ⦃c : Chrono W F⦄ where
    -- The callbacks.
    unfoldable pub handle : Event T F → FlapSim T F W V K → FlapSim T F W V K
    handle (effort_command xs) s = if is_hil s then s else on_effort xs s
    handle (position_command x) s =
        if syncs s then record s { shadow_ext_pos_ref = x; shadow_pos_ref_received = true } else s
    handle (velocity_command x) s =
        if syncs s then record s { shadow_ext_vel_ref = x; shadow_vel_ref_received = true } else s
    handle (hw_joint_state msg) s =
        if is_hil s then record s { hil = on_joint_state msg s.hil } else s
    handle (engage_request on now) s =
        if is_hil s then record s { hil = on_engage on now s.hil } else s
    handle (enable_hydro_request on) s = record s { hil = on_enable_hydro on s.hil }
    handle (parameters ps) s = set_parameters ps s
    handle (tick now) s = s

    module _ ⦃k : Coupling W V K F⦄ where
      unfoldable pub step : FlapSim T F W V K → Event T F → FlapSim T F W V K × List (Publication F)
      step s (tick now) = pass s now
      step s e = (handle e s, [])

      unfoldable pub run : FlapSim T F W V K → List (Event T F) → FlapSim T F W V K
      run s [] = s
      run s (e ∷ es) = run (step s e).0 es

  -- The destructor's publication.
  unfoldable pub shutdown : ⦃d : Double F⦄ → FlapSim T F W V K → List (Publication F)
  shutdown s = if is_hil s then load_torque f0 ∷ [] else []
