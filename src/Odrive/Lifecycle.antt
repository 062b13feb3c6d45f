-- ===== src/Odrive/Lifecycle.antt =====
-- The life cycle of the hardware interface around activation: initialisation from the description of
-- the robot, the CAN socket, the exported interfaces, and the loop of `read` on that socket.
use marine_robotics_hil_sea.Base.{
  ℕ, ◌+◌, ◌-◌, ◌%◌, ◌^◌, ◌<◌, ◌≡◌, refl, ap, ◌∙◌, Bool, true, false, Option, none, some, List, [],
  ◌∷◌, ◌++◌, length, String,
}
use marine_robotics_hil_sea.Base.Int.{ℤ, pos, negsuc}
use marine_robotics_hil_sea.Float.{Double, f0}
use marine_robotics_hil_sea.Odrive.Motor.{Frame, Axis, Narrow}
use marine_robotics_hil_sea.Odrive.Defs.{Interface, on_can_msg, read}
use marine_robotics_hil_sea.Socket.{Setup, Session, Received, init, deinit, drain}
use marine_robotics_hil_sea.Socket.Drain.{Yields, whole, process_all, drain-process_all}

-- A joint of `info_.joints`; `node_id` is what `std::stoi(parameters.at("node_id"))` returns, none
-- for the exception of either.
pub record JointInfo : Type 0 where
  pub name : String
  pub node_id : Option ℤ

-- The conversion of an `int` to `uint32_t`.
unfoldable pub to_uint32 : ℤ → ℕ
to_uint32 (pos n) = n % 2 ^ 32
to_uint32 (negsuc n) = (2 ^ 32 - 1 - n) % 2 ^ 32

-- The member of an axis to which an exported interface points.
pub data AxisMember : Type 0 where
  torque_target_member vel_estimate_member pos_estimate_member : AxisMember
  electrical_power_member mechanical_power_member : AxisMember
  torque_setpoint_member vel_setpoint_member pos_setpoint_member : AxisMember

-- `StateInterface` and `CommandInterface`: the names, and the index of the axis with the member.
pub record Handle : Type 0 where
  pub joint : String
  pub interface_name : String
  pub axis : ℕ
  pub member : AxisMember

unfoldable pub state_interfaces_from : ℕ → List JointInfo → List Handle
state_interfaces_from i [] = []
state_interfaces_from i (j ∷ js) =
    let handle : String → AxisMember → Handle =
      λ name member. record { joint = j.name; interface_name = name; axis = i; member = member } in
    handle "effort" torque_target_member
    ∷ handle "velocity" vel_estimate_member
    ∷ handle "position" pos_estimate_member
    ∷ handle "electrical_power" electrical_power_member
    ∷ handle "mechanical_power" mechanical_power_member
    ∷ state_interfaces_from (i + 1) js

unfoldable pub export_state_interfaces : List JointInfo → List Handle
export_state_interfaces joints = state_interfaces_from 0 joints

unfoldable pub command_interfaces_from : ℕ → List JointInfo → List Handle
command_interfaces_from i [] = []
command_interfaces_from i (j ∷ js) =
    let handle : String → AxisMember → Handle =
      λ name member. record { joint = j.name; interface_name = name; axis = i; member = member } in
    handle "effort" torque_setpoint_member
    ∷ handle "velocity" vel_setpoint_member
    ∷ handle "position" pos_setpoint_member
    ∷ command_interfaces_from (i + 1) js

unfoldable pub export_command_interfaces : List JointInfo → List Handle
export_command_interfaces joints = command_interfaces_from 0 joints

module _ {F : Type 0} ⦃d : Double F⦄ (nan : F) where
  -- `Axis(can_intf, node_id)`, where `nan` is NAN.
  unfoldable pub new_axis : String → ℕ → Axis F
  new_axis joint_name node_id = record {
    joint_name = joint_name;
    node_id = node_id;
    pos_setpoint = f0;
    vel_setpoint = f0;
    torque_setpoint = f0;
    pos_estimate = nan;
    vel_estimate = nan;
    torque_target = nan;
    torque_estimate = nan;
    electrical_power = nan;
    mechanical_power = nan;
    pos_input_enabled = false;
    vel_input_enabled = false;
    torque_input_enabled = false;
  }

  -- The loop over the joints; none is an exception.
  unfoldable pub add_axes : List JointInfo → List (Axis F) → Option (List (Axis F))
  add_axes [] axes = some axes
  add_axes (j ∷ js) axes = elim j.node_id [
    | none ↦ none
    | some id ↦ add_axes js (axes ++ (new_axis j.name (to_uint32 id) ∷ []))
  ]

  -- `base_ok` says whether the base class accepts; the result is false for `ERROR`.
  unfoldable pub on_init : Bool → List JointInfo → Interface F → Option (Interface F × Bool)
  on_init false joints s = some (s, false)
  on_init true joints s = elim (add_axes joints s.axes) [
    | none ↦ none
    | some axes ↦ some (record s { axes = axes }, true)
  ]

module _ {F C : Type 0} where
  -- The result is false for `ERROR`.
  unfoldable pub on_configure : Setup → C → Session C (Interface F) → Session C (Interface F) × Bool
  on_configure setup on_socket_event s = init setup on_socket_event s

  unfoldable pub on_cleanup : Bool → Session C (Interface F) → Option (Session C (Interface F))
  on_cleanup removed s = deinit removed s

module _ {F : Type 0} ⦃d : Double F⦄ ⦃n : Narrow F⦄ where
  -- The frame processor that `on_configure` binds.
  unfoldable pub process_frame : Frame → Interface F → Interface F
  process_frame frame s = record s { axes = on_can_msg frame s.axes }

  -- `while (can_intf_.read_nonblocking()) {}` on fuel: the loop that does not test `broken_`.
  unfoldable pub read_socket : (ℕ → Received Frame) → ℕ → Interface F → Option (Interface F)
  read_socket received fuel s = drain process_frame false received fuel 0 s

  process_all-read :
      (frames : List Frame) (s : Interface F) → process_all process_frame frames s ≡ read frames s
  unfolding process_all process_frame read
  process_all-read [] s = refl
  process_all-read (frame ∷ frames) s = process_all-read frames (process_frame frame s)

  -- On a socket that yields the messages of a list and then nothing, `read` returns after at most
  -- one round more than there are messages, with the axes that the whole frames, taken in their
  -- order, leave.
  pub read_socket-read :
      (received : ℕ → Received Frame) (ms : List (ℕ × Frame)) (fuel : ℕ) (s : Interface F)
      → Yields received 0 ms
      → length ms < fuel
      → read_socket received fuel s ≡ some (read (whole ms) s)
  unfolding read_socket
  read_socket-read received ms fuel s h l =
      drain-process_all process_frame received ms 0 fuel s h l
      ∙ ap some (process_all-read (whole ms) s)
