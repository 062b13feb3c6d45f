-- ===== src/Odrive/Silence.antt =====
-- A hardware interface between its initialisation and the first switch of command modes.
use marine_robotics_hil_sea.Base.{◌≡◌, some, List, [], ◌∷◌}
use marine_robotics_hil_sea.Base.Int.{ℤ}
use marine_robotics_hil_sea.Float.{Double}
use marine_robotics_hil_sea.Can.Float32.{Float32}
use marine_robotics_hil_sea.Odrive.Motor.{Frame, Axis, Junk}
use marine_robotics_hil_sea.Odrive.Defs.{send_state}
use marine_robotics_hil_sea.Odrive.Lifecycle.{JointInfo, to_uint32, new_axis}
use marine_robotics_hil_sea.Enums.{value}
use marine_robotics_hil_sea.Enums.Axis.{
  odrive_axis_state, odrive_control_mode, odrive_input_mode, axis_state_idle,
}

-- The request to go idle for each axis.
unfoldable pub idle_requests : {F : Type 0} → Junk → List (Axis F) → List Frame
idle_requests junk [] = []
idle_requests junk (a ∷ others) =
    send_state junk a.node_id (value axis_state_idle) ∷ idle_requests junk others

module _ {F : Type 0} ⦃d : Double F⦄ (nan : F) where
  -- One new axis for each joint, in their order, with the joint's name and node id.
  abbrev pub Described : List JointInfo → List (Axis F) → Type 0
  Described [] axes = axes ≡ []
  Described (j ∷ js) axes =
      (id : ℤ) × (others : List (Axis F)) × (j.node_id ≡ some id)
      × (axes ≡ new_axis nan j.name (to_uint32 id) ∷ others)
      × Described js others
