-- ===== src/Odrive/Defs.antt =====
-- `class ODriveHardwareInterface`: activation, the switch of command modes, writing and reading.
use marine_robotics_hil_sea.Base.{
  ℕ, ◌/◌, ◌^◌, Bool, true, false, ◌||◌, Option, none, some, List, [], ◌∷◌, ◌++◌, String, str_eq,
  ◌==◌, if◌then◌else◌,
}
use Prim.Native.String.{◌++◌ as str_append}
use marine_robotics_hil_sea.Can.Float32.{Float32}
use marine_robotics_hil_sea.Can.Messages.{
  SetAxisStateMsg, set_axis_state_msg, SetControllerModeMsg, set_controller_mode_msg,
  ClearErrorsMsg, clear_errors_msg, SetInputPosMsg, set_input_pos_msg, SetInputVelMsg,
  set_input_vel_msg, SetInputTorqueMsg, set_input_torque_msg,
}
use marine_robotics_hil_sea.Float.{Double, ◌⊘◌, f0}
use marine_robotics_hil_sea.Odrive.Motor.{Frame, Narrow, Axis, Junk, send, receive}
use marine_robotics_hil_sea.Enums.{value}
use marine_robotics_hil_sea.Enums.Axis.{
  odrive_axis_state, odrive_control_mode, odrive_input_mode, axis_state_idle,
  axis_state_closed_loop_control, input_mode_passthrough, control_mode_torque_control,
  control_mode_velocity_control, control_mode_position_control,
}

pub record Interface (F : Type 0) : Type 0 where
  pub active : Bool
  pub axes : List (Axis F)

-- The outcome of the chain of tests: the control mode of an axis, if an input is enabled.
unfoldable pub control_mode_of : {F : Type 0} → Axis F → Option ℕ
control_mode_of a =
    if a.pos_input_enabled
    then some (value control_mode_position_control)
    else if a.vel_input_enabled
    then some (value control_mode_velocity_control)
    else if a.torque_input_enabled
    then some (value control_mode_torque_control)
    else none

abbrev pub send_state : Junk → ℕ → ℕ → Frame
send_state junk node_id state =
    send {M = SetAxisStateMsg} junk node_id (record { axis_requested_state = state })

-- What an active interface sends: without a mode the request to go idle, else the mode, the request
-- to clear the errors, and the request for closed loop control.
unfoldable pub mode_frames : Junk → ℕ → Option ℕ → List Frame
mode_frames junk node_id none = send_state junk node_id (value axis_state_idle) ∷ []
mode_frames junk node_id (some mode) =
    send {M = SetControllerModeMsg} junk node_id
      (record { control_mode = mode; input_mode = value input_mode_passthrough })
    ∷ send {M = ClearErrorsMsg} junk node_id (record { identify = 0 })
    ∷ send_state junk node_id (value axis_state_closed_loop_control)
    ∷ []

module _ {F : Type 0} where
  -- The loop over the three interfaces of an axis for one key: the flags that the key names are
  -- set, and whether there was one.
  unfoldable pub set_input : Bool → String → Axis F × Bool → Axis F × Bool
  set_input on key (a, mode_switch) =
      let names : String → Bool =
        λ kind. str_eq (str_append a.joint_name (str_append "/" kind)) key in
      (
        record a {
          pos_input_enabled = if names "position" then on else a.pos_input_enabled;
          vel_input_enabled = if names "velocity" then on else a.vel_input_enabled;
          torque_input_enabled = if names "effort" then on else a.torque_input_enabled;
        },
        mode_switch || names "position" || names "velocity" || names "effort",
      )

  unfoldable pub set_inputs : Bool → List String → Axis F × Bool → Axis F × Bool
  set_inputs on [] x = x
  set_inputs on (key ∷ keys) x = set_inputs on keys (set_input on key x)

module _ {F : Type 0} (junk : Junk) where
  -- The frames of `set_axis_command_mode`, in the order of the calls of `send`.
  unfoldable pub set_axis_command_mode : Bool → Axis F → List Frame
  set_axis_command_mode false a = send_state junk a.node_id (value axis_state_idle) ∷ []
  set_axis_command_mode true a = mode_frames junk a.node_id (control_mode_of a)

  unfoldable pub command_all : Bool → List (Axis F) → List Frame
  command_all active [] = []
  command_all active (a ∷ others) = set_axis_command_mode active a ++ command_all active others

  unfoldable pub on_activate : Interface F → Interface F × List Frame
  on_activate s = (record s { active = true }, command_all true s.axes)

  unfoldable pub on_deactivate : Interface F → Interface F × List Frame
  on_deactivate s = (record s { active = false }, command_all false s.axes)

  -- One axis: the stopped interfaces, then the started ones, then the mode if a flag was named.
  unfoldable pub switch_axis : Bool → List String → List String → Axis F → Axis F × List Frame
  switch_axis active start stop a =
      let (a', mode_switch) = set_inputs true start (set_inputs false stop (a, false)) in
      (a', if mode_switch then set_axis_command_mode active a' else [])

  unfoldable pub switch_axes :
      Bool → List String → List String → List (Axis F) → List (Axis F) × List Frame
  switch_axes active start stop [] = ([], [])
  switch_axes active start stop (a ∷ others) =
      let (a', sent) = switch_axis active start stop a in
      let (others', rest) = switch_axes active start stop others in (a' ∷ others', sent ++ rest)

  unfoldable pub perform_command_mode_switch :
      Interface F → List String → List String → Interface F × List Frame
  perform_command_mode_switch s start stop =
      let (others, sent) = switch_axes s.active start stop s.axes in
      (record s { axes = others }, sent)

module _ {F : Type 0} ⦃d : Double F⦄ ⦃n : Narrow F⦄ ⦃f : Float32⦄ (junk : Junk) where
  -- The frame that fits the set of enabled setpoints, if there is one.
  unfoldable pub write_axis : Axis F → List Frame
  write_axis a =
      let torque_ff = n.to_float (if a.torque_input_enabled then a.torque_setpoint else f0) in
      if a.pos_input_enabled
      then send {M = SetInputPosMsg} junk a.node_id (record {
        input_pos = n.to_float (a.pos_setpoint ⊘ n.two_pi);
        vel_ff = n.to_float (if a.vel_input_enabled then a.vel_setpoint ⊘ n.two_pi else f0);
        torque_ff = torque_ff;
      })
        ∷ []
      else if a.vel_input_enabled
      then send {M = SetInputVelMsg} junk a.node_id (record {
        input_vel = n.to_float (a.vel_setpoint ⊘ n.two_pi);
        input_torque_ff = torque_ff;
      })
        ∷ []
      else if a.torque_input_enabled
      then send {M = SetInputTorqueMsg} junk a.node_id
          (record { input_torque = n.to_float a.torque_setpoint })
        ∷ []
      else []

  unfoldable pub write : List (Axis F) → List Frame
  write [] = []
  write (a ∷ others) = write_axis a ++ write others

module _ {F : Type 0} ⦃d : Double F⦄ ⦃n : Narrow F⦄ where
  -- `on_can_msg` of the interface: every axis whose node id the frame carries takes it.
  unfoldable pub on_can_msg : Frame → List (Axis F) → List (Axis F)
  on_can_msg frame [] = []
  on_can_msg frame (a ∷ others) =
      (if frame.can_id / 2 ^ 5 == a.node_id then receive frame a else a) ∷ on_can_msg frame others

  -- `read`, with the frames that the socket yields before it has no more.
  unfoldable pub read : List Frame → Interface F → Interface F
  read [] s = s
  read (frame ∷ frames) s = read frames (record s { axes = on_can_msg frame s.axes })
