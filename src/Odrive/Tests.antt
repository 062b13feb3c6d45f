-- ===== src/Odrive/Tests.antt =====
-- The theorems of the hardware interface at concrete inputs.
use marine_robotics_hil_sea.Base.{
  ℕ, ◌*◌, ◌/◌, ◌%◌, ◌^◌, ◌<◌, ◌≡◌, refl, arith, true, false, List, [], ◌∷◌, ◌++◌, All, String, none,
  some, get_elem?, ◌==◌, if◌then◌else◌,
}
use marine_robotics_hil_sea.Base.Int.{pos, negsuc, pos_part}
use marine_robotics_hil_sea.Can.Messages.{
  GetEncoderEstimatesMsg, GetTorquesMsg, GetPowersMsg, get_encoder_estimates_msg, get_torques_msg,
  get_powers_msg,
}
use marine_robotics_hil_sea.Can.Tests.{toy_float, ones}
use marine_robotics_hil_sea.Float.Fixed.{Fixed, nan, fin, unit, fixed_double}
use marine_robotics_hil_sea.Odrive.Motor.{Frame, Narrow, Axis, Junk, send}
use marine_robotics_hil_sea.Odrive.Defs.{
  Interface, set_axis_command_mode, on_deactivate, write_axis, read,
}
use marine_robotics_hil_sea.Odrive.Lifecycle.{
  JointInfo, vel_estimate_member, pos_setpoint_member, state_interfaces_from,
  export_state_interfaces, command_interfaces_from, export_command_interfaces, new_axis, add_axes,
  on_init, read_socket, read_socket-read,
}
use marine_robotics_hil_sea.Socket.{Received, nothing, message}
use marine_robotics_hil_sea.Socket.Drain.{whole as whole_frames}
use marine_robotics_hil_sea.Odrive.Modes.{
  IsIdleRequest, switch_all, deactivated-IsIdleRequest, requested_mode, setpoint_mode,
  requested-setpoint,
}
use marine_robotics_hil_sea.Odrive.Estimates.{at_node, estimated, read-estimates, read-short}
use marine_robotics_hil_sea.Samples.{decimal}

-- Whole numbers as patterns.
abbrev pub pattern_of : Fixed → ℕ
pattern_of nan = 0
pattern_of (fin z) = pos_part z / unit % 2 ^ 32

pub pattern_of-range : (x : Fixed) → pattern_of x < 2 ^ 32
pattern_of-range nan = omega arith
pattern_of-range (fin z) = omega arith

instance abbrev pub whole : Narrow Fixed
whole = record {
  to_float = pattern_of;
  of_float = λ k. fin (pos (k * unit));
  two_pi = decimal 628 2;
  to_float_range = pattern_of-range;
}

abbrev pub junk : Junk
junk id = ((λ start. ones), ones)

abbrev motor : Axis Fixed
motor = record {
  joint_name = "motor_joint";
  node_id = 0;
  pos_setpoint = decimal 0 0;
  vel_setpoint = decimal 0 0;
  torque_setpoint = decimal 3 0;
  pos_estimate = nan;
  vel_estimate = nan;
  torque_target = nan;
  torque_estimate = nan;
  electrical_power = nan;
  mechanical_power = nan;
  pos_input_enabled = false;
  vel_input_enabled = false;
  torque_input_enabled = true;
}

abbrev pair : Interface Fixed
pair = record {
  active = true;
  axes = motor ∷ record motor { joint_name = "flap"; node_id = 5 } ∷ [];
}

abbrev switches : List (List String × List String)
switches = ("motor_joint/effort" ∷ [], "motor_joint/velocity" ∷ []) ∷ []

deactivated-IsIdleRequest_example :
    All IsIdleRequest
      ((on_deactivate junk pair).1 ++ switch_all junk (on_deactivate junk pair).0 switches)
deactivated-IsIdleRequest_example = deactivated-IsIdleRequest junk pair switches

requested-setpoint_example :
    requested_mode (set_axis_command_mode junk true motor) ≡ setpoint_mode (write_axis junk motor)
requested-setpoint_example = requested-setpoint junk motor

abbrev encoder : GetEncoderEstimatesMsg
encoder = record { pos_estimate = 2; vel_estimate = 1 }

abbrev torques : GetTorquesMsg
torques = record { torque_target = 3; torque_estimate = 4 }

abbrev powers : GetPowersMsg
powers = record { electrical_power = 5; mechanical_power = 6 }

read-estimates_example :
    read (send junk 5 encoder ∷ send junk 5 torques ∷ send junk 5 powers ∷ []) pair
    ≡ record pair { axes = at_node 5 (estimated encoder torques powers) pair.axes }
read-estimates_example =
    read-estimates junk 5 encoder torques powers pair (omega arith) (omega arith) (omega arith)
      (omega arith)

read-short_example : read (record { can_id = 9; can_dlc = 4; payload = ones } ∷ []) pair ≡ pair
read-short_example =
    read-short (record { can_id = 9; can_dlc = 4; payload = ones } ∷ []) pair (omega arith, tt)

-- Two joints of a robot: their node ids are numbers, and the second is negative.
abbrev joints : List JointInfo
joints =
    record { name = "motor_joint"; node_id = some (pos 0) }
    ∷ record { name = "flap"; node_id = some (negsuc 0) }
    ∷ []

abbrev started : Interface Fixed
started = record {
  active = true;
  axes = new_axis nan "motor_joint" 0 ∷ new_axis nan "flap" 0xffffffff ∷ [];
}

not_a_number :
    on_init nan true (record { name = "flap"; node_id = none } ∷ []) (record pair { axes = [] })
    ≡ none
unfolding on_init add_axes
not_a_number = refl

-- A socket with a short frame before the three frames of node 5.
abbrev on_bus : ℕ → Received Frame
on_bus i =
    if i == 0
    then message 8 (send junk 5 torques)
    else if i == 1
    then message 16 (send junk 5 encoder)
    else nothing

read_socket-read_example :
    read_socket on_bus 3 pair
    ≡ some (read (whole_frames ((8, send junk 5 torques) ∷ (16, send junk 5 encoder) ∷ [])) pair)
read_socket-read_example =
    read_socket-read on_bus ((8, send junk 5 torques) ∷ (16, send junk 5 encoder) ∷ []) 3 pair
      (refl, (refl, refl)) (omega arith)

exported :
    (get_elem? (export_state_interfaces joints) 6
      ≡ some (record {
        joint = "flap";
        interface_name = "velocity";
        axis = 1;
        member = vel_estimate_member;
      }))
    × (get_elem? (export_command_interfaces joints) 5
        ≡ some (record {
          joint = "flap";
          interface_name = "position";
          axis = 1;
          member = pos_setpoint_member;
        }))
unfolding export_state_interfaces state_interfaces_from export_command_interfaces
    command_interfaces_from
exported = (refl, refl)
