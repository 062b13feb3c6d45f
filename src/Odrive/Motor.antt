-- ===== src/Odrive/Motor.antt =====
-- `struct Axis`: the frames that it sends, and the estimates that it takes from received frames.
use marine_robotics_hil_sea.Base.{
  ℕ, ◌+◌, ◌*◌, ◌%◌, ◌^◌, ◌<◌, Bool, String, ltb, ◌==◌, if◌then◌else◌,
}
use marine_robotics_hil_sea.Can.{Word, Garbage, Message}
use marine_robotics_hil_sea.Can.Messages.{
  GetEncoderEstimatesMsg, get_encoder_estimates_msg, GetTorquesMsg, get_torques_msg, GetPowersMsg,
  get_powers_msg,
}
use marine_robotics_hil_sea.Float.{Double, ◌⊗◌}

-- `struct can_frame` of Linux; the payload as bits.
pub record Frame : Type 0 where
  pub can_id : ℕ
  pub can_dlc : ℕ
  pub payload : Word

-- The conversions between `double` and the patterns of `float`, and `2 * M_PI`.
pub record Narrow (F : Type 0) : Type 0 where
  pub to_float : F → ℕ
  pub of_float : ℕ → F
  pub two_pi : F
  pub to_float_range : (x : F) → to_float x < 2 ^ 32

-- The joint's name stands in `info_.joints` at the index of the axis.
pub record Axis (F : Type 0) : Type 0 where
  pub joint_name : String
  pub node_id : ℕ
  pub pos_setpoint : F
  pub vel_setpoint : F
  pub torque_setpoint : F
  pub pos_estimate : F
  pub vel_estimate : F
  pub torque_target : F
  pub torque_estimate : F
  pub electrical_power : F
  pub mechanical_power : F
  pub pos_input_enabled : Bool
  pub vel_input_enabled : Bool
  pub torque_input_enabled : Bool

-- What a frame on the stack and the unions of its signals hold before they are written, by the id
-- of the frame.
abbrev pub Junk : Type 0
Junk = ℕ → Garbage × Word

-- `node_id_ << 5 | msg.cmd_id` in `uint32_t`; a command id has 5 bits, so that the sum is the `|`.
unfoldable pub can_id_of : ℕ → ℕ → ℕ
can_id_of node_id cmd_id = node_id * 2 ^ 5 % 2 ^ 32 + cmd_id

-- `send`
unfoldable pub send : {M : Type 0} ⦃msg : Message M⦄ → Junk → ℕ → M → Frame
send ⦃msg⦄ junk node_id m =
    let id = can_id_of node_id msg.cmd_id in
    record {
      can_id = id;
      can_dlc = msg.msg_length;
      payload = msg.encode_buf (junk id).0 m (junk id).1;
    }

module _ {F : Type 0} ⦃d : Double F⦄ ⦃n : Narrow F⦄ where
  -- The three cases of the switch, on decoded messages.
  unfoldable pub on_encoder_estimates : GetEncoderEstimatesMsg → Axis F → Axis F
  on_encoder_estimates m a = record a {
    pos_estimate = n.of_float m.pos_estimate ⊗ n.two_pi;
    vel_estimate = n.of_float m.vel_estimate ⊗ n.two_pi;
  }

  unfoldable pub on_torques : GetTorquesMsg → Axis F → Axis F
  on_torques m a = record a {
    torque_target = n.of_float m.torque_target;
    torque_estimate = n.of_float m.torque_estimate;
  }

  unfoldable pub on_powers : GetPowersMsg → Axis F → Axis F
  on_powers m a = record a {
    electrical_power = n.of_float m.electrical_power;
    mechanical_power = n.of_float m.mechanical_power;
  }

  -- `try_decode` and the handler of the message: a frame that is too short is ignored.
  unfoldable pub decode_then :
      {M : Type 0} ⦃msg : Message M⦄ → (M → Axis F → Axis F) → Frame → Axis F → Axis F
  decode_then ⦃msg⦄ handle frame a =
      if ltb frame.can_dlc msg.msg_length then a else handle (msg.decode_buf frame.payload) a

  -- `Axis::on_can_msg`: the switch on the lowest five bits of the id.
  unfoldable pub receive : Frame → Axis F → Axis F
  receive frame a =
      let cmd = frame.can_id % 2 ^ 5 in
      if cmd == get_encoder_estimates_msg.cmd_id
      then decode_then on_encoder_estimates frame a
      else if cmd == get_torques_msg.cmd_id
      then decode_then on_torques frame a
      else if cmd == get_powers_msg.cmd_id
      then decode_then on_powers frame a
      else a
