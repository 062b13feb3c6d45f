-- ===== src/Odrive/Modes.antt =====
-- The command modes: what an inactive interface asks for, and how the mode fits the setpoints.
use marine_robotics_hil_sea.Base.{
  ℕ, ◌/◌, ◌%◌, ◌^◌, ◌<◌, ◌≡◌, refl, ap, sym, ◌∙◌, true, false, Bool-cases, inl, inr, arith, Option,
  none, some, List, [], ◌∷◌, ◌++◌, All, All-append, String, ◌==◌, if◌then◌else◌,
}
use marine_robotics_hil_sea.Can.{Message}
use marine_robotics_hil_sea.Can.Float32.{Float32}
use marine_robotics_hil_sea.Can.Messages.{
  set_axis_state_msg, set_axis_state_roundtrip, SetControllerModeMsg, set_controller_mode_msg,
  set_controller_mode_roundtrip, set_input_torque_msg, set_input_pos_msg, set_input_vel_msg,
}
use marine_robotics_hil_sea.Float.{Double}
use marine_robotics_hil_sea.Odrive.Motor.{Frame, Narrow, Axis, Junk, can_id_of, send}
use marine_robotics_hil_sea.Odrive.Defs.{
  Interface, send_state, control_mode_of, set_inputs, mode_frames, set_axis_command_mode,
  command_all, on_deactivate, switch_axis, switch_axes, perform_command_mode_switch, write_axis,
}
use marine_robotics_hil_sea.Enums.{value}
use marine_robotics_hil_sea.Enums.Axis.{
  odrive_axis_state, odrive_control_mode, odrive_input_mode, axis_state_idle,
}

pub can_id_of-cmd : (node_id cmd : ℕ) → cmd < 2 ^ 5 → can_id_of node_id cmd % 2 ^ 5 ≡ cmd
unfolding can_id_of
can_id_of-cmd node_id cmd h = omega arith

pub can_id_of-node :
    (node_id cmd : ℕ) → node_id < 2 ^ 27 → cmd < 2 ^ 5 → can_id_of node_id cmd / 2 ^ 5 ≡ node_id
unfolding can_id_of
can_id_of-node node_id cmd fits h = omega arith

-- The frame asks an axis to go idle, as the drive decodes it.
pub record IsIdleRequest (frame : Frame) : Type 0 where
  pub is_state : frame.can_id % 2 ^ 5 ≡ set_axis_state_msg.cmd_id
  pub asks_idle :
      (set_axis_state_msg.decode_buf frame.payload).axis_requested_state ≡ value axis_state_idle

send_state-IsIdleRequest :
    (junk : Junk) (node_id : ℕ) → IsIdleRequest (send_state junk node_id (value axis_state_idle))
unfolding send
send_state-IsIdleRequest junk node_id =
    let id = can_id_of node_id 0x007 in
    record {
      is_state = can_id_of-cmd node_id 0x007 (omega arith);
      asks_idle =
          ap (λ m. m.axis_requested_state)
            (set_axis_state_roundtrip (junk id).0 (record { axis_requested_state = 1 }) (junk id).1
              (omega arith));
    }

module _ {F : Type 0} (junk : Junk) where
  inactive-IsIdleRequest : (a : Axis F) → All IsIdleRequest (set_axis_command_mode junk false a)
  unfolding set_axis_command_mode
  inactive-IsIdleRequest a = (send_state-IsIdleRequest junk a.node_id, tt)

  command_all-IsIdleRequest :
      (axes : List (Axis F)) → All IsIdleRequest (command_all junk false axes)
  unfolding command_all
  command_all-IsIdleRequest [] = tt
  command_all-IsIdleRequest (a ∷ others) =
      All-append IsIdleRequest (set_axis_command_mode junk false a) (command_all junk false others)
        (inactive-IsIdleRequest a) (command_all-IsIdleRequest others)

  switch_axis-IsIdleRequest :
      (start stop : List String) (a : Axis F)
      → All IsIdleRequest (switch_axis junk false start stop a).1
  unfolding switch_axis
  switch_axis-IsIdleRequest start stop a =
      let r = set_inputs true start (set_inputs false stop (a, false)) in
      elim (Bool-cases r.1) [
        | inl named ↦ rw named (inactive-IsIdleRequest r.0)
        | inr untouched ↦ rw untouched tt
      ]

  switch_axes-IsIdleRequest :
      (start stop : List String) (axes : List (Axis F))
      → All IsIdleRequest (switch_axes junk false start stop axes).1
  unfolding switch_axes
  switch_axes-IsIdleRequest start stop [] = tt
  switch_axes-IsIdleRequest start stop (a ∷ others) =
      All-append IsIdleRequest (switch_axis junk false start stop a).1
        (switch_axes junk false start stop others).1 (switch_axis-IsIdleRequest start stop a)
        (switch_axes-IsIdleRequest start stop others)

  -- The frames of a sequence of switches, each with the interfaces to start and to stop.
  pub switch_all : Interface F → List (List String × List String) → List Frame
  switch_all s [] = []
  switch_all s ((start, stop) ∷ switches) =
      (perform_command_mode_switch junk s start stop).1
      ++ switch_all (perform_command_mode_switch junk s start stop).0 switches

  switch_all-IsIdleRequest :
      (axes : List (Axis F)) (switches : List (List String × List String))
      → All IsIdleRequest (switch_all (record { active = false; axes = axes }) switches)
  unfolding switch_all perform_command_mode_switch
  switch_all-IsIdleRequest axes [] = tt
  switch_all-IsIdleRequest axes ((start, stop) ∷ switches) =
      let r = switch_axes junk false start stop axes in
      All-append IsIdleRequest r.1 (switch_all (record { active = false; axes = r.0 }) switches)
        (switch_axes-IsIdleRequest start stop axes) (switch_all-IsIdleRequest r.0 switches)

  -- From its deactivation on, whatever command modes are switched in whatever order: every frame
  -- that the deactivation and the switches send asks an axis to go idle, as the drive decodes it.
  pub deactivated-IsIdleRequest :
      (s : Interface F) (switches : List (List String × List String))
      → All IsIdleRequest ((on_deactivate junk s).1 ++ switch_all (on_deactivate junk s).0 switches)
  unfolding on_deactivate
  deactivated-IsIdleRequest s switches =
      All-append IsIdleRequest (command_all junk false s.axes)
        (switch_all (record { active = false; axes = s.axes }) switches)
        (command_all-IsIdleRequest s.axes) (switch_all-IsIdleRequest s.axes switches)

-- The control mode that the first of the frames asks for.
pub requested_mode : List Frame → Option ℕ
requested_mode [] = none
requested_mode (frame ∷ frames) =
    if frame.can_id % 2 ^ 5 == set_controller_mode_msg.cmd_id
    then some (set_controller_mode_msg.decode_buf frame.payload).control_mode
    else none

-- The control mode in which the drive follows the setpoint of the first frame: position, velocity,
-- torque.
pub setpoint_mode : ⦃f : Float32⦄ → List Frame → Option ℕ
setpoint_mode [] = none
setpoint_mode (frame ∷ frames) =
    if frame.can_id % 2 ^ 5 == set_input_pos_msg.cmd_id
    then some 3
    else if frame.can_id % 2 ^ 5 == set_input_vel_msg.cmd_id
    then some 2
    else if frame.can_id % 2 ^ 5 == set_input_torque_msg.cmd_id
    then some 1
    else none

requested_mode-send :
    (junk : Junk) (node_id mode : ℕ) (frames : List Frame)
    → mode < 2 ^ 32
    → requested_mode (
        send {M = SetControllerModeMsg} junk node_id
          (record { control_mode = mode; input_mode = 1 })
        ∷ frames)
      ≡ some mode
unfolding requested_mode send
requested_mode-send junk node_id mode frames h =
    let id = can_id_of node_id 0x00b in
    let m : SetControllerModeMsg = record { control_mode = mode; input_mode = 1 } in
    ground (
      arith,
      can_id_of-cmd node_id 0x00b (omega arith),
      set_controller_mode_roundtrip (junk id).0 m (junk id).1 (h, omega arith),
    )

requested_mode-idle :
    (junk : Junk) (node_id : ℕ) (frames : List Frame)
    → requested_mode (send_state junk node_id (value axis_state_idle) ∷ frames) ≡ none
unfolding requested_mode send
requested_mode-idle junk node_id frames = ground (arith, can_id_of-cmd node_id 0x007 (omega arith))

control_mode_of-small :
    {F : Type 0} → (a : Axis F) (mode : ℕ) → control_mode_of a ≡ some mode → mode < 2 ^ 32
unfolding control_mode_of
control_mode_of-small a mode h = ground arith

requested_mode-mode_frames :
    (junk : Junk) (node_id : ℕ) (mode : Option ℕ)
    → ((m : ℕ) → mode ≡ some m → m < 2 ^ 32)
    → requested_mode (mode_frames junk node_id mode) ≡ mode
unfolding mode_frames
requested_mode-mode_frames junk node_id none small = requested_mode-idle junk node_id []
requested_mode-mode_frames junk node_id (some m) small =
    requested_mode-send junk node_id m _ (small m refl)

requested_mode-control_mode_of :
    {F : Type 0}
    → (junk : Junk) (a : Axis F)
    → requested_mode (set_axis_command_mode junk true a) ≡ control_mode_of a
unfolding set_axis_command_mode
requested_mode-control_mode_of junk a =
    requested_mode-mode_frames junk a.node_id (control_mode_of a) (control_mode_of-small a)

setpoint_mode-send :
    ⦃f : Float32⦄
    → {M : Type 0} ⦃msg : Message M⦄ → (junk : Junk) (node_id : ℕ) (m : M) → msg.cmd_id < 2 ^ 5
    → setpoint_mode (send junk node_id m ∷ []) ≡ (
        if msg.cmd_id == 0x00c
        then some 3
        else if msg.cmd_id == 0x00d
        then some 2
        else if msg.cmd_id == 0x00e
        then some 1
        else none)
unfolding setpoint_mode send
setpoint_mode-send ⦃f⦄ ⦃msg⦄ junk node_id m h = rw (can_id_of-cmd node_id msg.cmd_id h)

module _ {F : Type 0} ⦃d : Double F⦄ ⦃n : Narrow F⦄ ⦃f : Float32⦄ where
  setpoint_mode-control_mode_of :
      (junk : Junk) (a : Axis F) → setpoint_mode (write_axis junk a) ≡ control_mode_of a
  unfolding write_axis control_mode_of setpoint_mode
  setpoint_mode-control_mode_of junk a = elim (Bool-cases a.pos_input_enabled) [
    | inl p ↦ rw p (setpoint_mode-send junk a.node_id _ (omega arith))
    | inr p ↦ rw p (elim (Bool-cases a.vel_input_enabled) [
      | inl v ↦ rw v (setpoint_mode-send junk a.node_id _ (omega arith))
      | inr v ↦ rw v (elim (Bool-cases a.torque_input_enabled) [
        | inl t ↦ rw t (setpoint_mode-send junk a.node_id _ (omega arith))
        | inr t ↦ rw t refl
      ])
    ])
  ]

  -- The setpoint that `write` sends for an axis is the kind of setpoint that the control mode of the
  -- active interface asks the drive to follow; where none is sent no mode is asked for.
  pub requested-setpoint :
      (junk : Junk) (a : Axis F)
      → requested_mode (set_axis_command_mode junk true a) ≡ setpoint_mode (write_axis junk a)
  requested-setpoint junk a =
      requested_mode-control_mode_of junk a ∙ sym (setpoint_mode-control_mode_of junk a)
