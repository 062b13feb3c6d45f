-- ===== src/Can/Messages/Motion.antt =====
-- src/odrive_base/include/can_simple_messages.hpp: the messages for the axis state, the controller mode, the setpoints and the encoder.
-- A `float` is its bit pattern.
use marine_robotics_hil_sea.Base.{ℕ, ◌≡◌, arith, List, [], ◌∷◌}
use marine_robotics_hil_sea.Can.Layout.{Put, put, put_all, Garbage, get, Message}
use marine_robotics_hil_sea.Can.Signal.{Word}
use marine_robotics_hil_sea.Can.Sequence.{Fits, put_all-reads}
use marine_robotics_hil_sea.Can.Float32.{Float32, scaled_i16, unscaled_i16, quantised_i16}

pub record SetAxisStateMsg : Type 0 where
  pub axis_requested_state : ℕ  -- uint32_t

abbrev pub set_axis_state_puts : SetAxisStateMsg → List Put
set_axis_state_puts m = put 32 m.axis_requested_state 0 32 ∷ []

instance abbrev pub set_axis_state_msg : Message SetAxisStateMsg
set_axis_state_msg = record {
  cmd_id = 0x007;
  msg_length = 8;
  encode_buf = λ g m buf. put_all g (set_axis_state_puts m) buf;
  decode_buf = λ buf. record { axis_requested_state = get 32 buf 0 32 };
}

pub set_axis_state_roundtrip :
    (g : Garbage) (m : SetAxisStateMsg) (buf : Word)
    → Fits (set_axis_state_puts m)
    → set_axis_state_msg.decode_buf (set_axis_state_msg.encode_buf g m buf) ≡ m
set_axis_state_roundtrip g m buf fits =
    ground (arith, put_all-reads g (set_axis_state_puts m) buf 0 (omega arith))

pub record GetEncoderEstimatesMsg : Type 0 where
  pub pos_estimate : ℕ  -- float
  pub vel_estimate : ℕ  -- float

abbrev pub get_encoder_estimates_puts : GetEncoderEstimatesMsg → List Put
get_encoder_estimates_puts m = put 32 m.pos_estimate 0 32 ∷ put 32 m.vel_estimate 32 32 ∷ []

instance abbrev pub get_encoder_estimates_msg : Message GetEncoderEstimatesMsg
get_encoder_estimates_msg = record {
  cmd_id = 0x009;
  msg_length = 8;
  encode_buf = λ g m buf. put_all g (get_encoder_estimates_puts m) buf;
  decode_buf = λ buf. record { pos_estimate = get 32 buf 0 32; vel_estimate = get 32 buf 32 32 };
}

pub get_encoder_estimates_roundtrip :
    (g : Garbage) (m : GetEncoderEstimatesMsg) (buf : Word)
    → Fits (get_encoder_estimates_puts m)
    → get_encoder_estimates_msg.decode_buf (get_encoder_estimates_msg.encode_buf g m buf) ≡ m
get_encoder_estimates_roundtrip g m buf fits =
    ground (arith, put_all-reads g (get_encoder_estimates_puts m) buf 0 (omega arith))

pub record SetControllerModeMsg : Type 0 where
  pub control_mode : ℕ  -- uint32_t
  pub input_mode : ℕ  -- uint32_t

abbrev pub set_controller_mode_puts : SetControllerModeMsg → List Put
set_controller_mode_puts m = put 32 m.control_mode 0 32 ∷ put 32 m.input_mode 32 32 ∷ []

instance abbrev pub set_controller_mode_msg : Message SetControllerModeMsg
set_controller_mode_msg = record {
  cmd_id = 0x00b;
  msg_length = 8;
  encode_buf = λ g m buf. put_all g (set_controller_mode_puts m) buf;
  decode_buf = λ buf. record { control_mode = get 32 buf 0 32; input_mode = get 32 buf 32 32 };
}

pub set_controller_mode_roundtrip :
    (g : Garbage) (m : SetControllerModeMsg) (buf : Word)
    → Fits (set_controller_mode_puts m)
    → set_controller_mode_msg.decode_buf (set_controller_mode_msg.encode_buf g m buf) ≡ m
set_controller_mode_roundtrip g m buf fits =
    ground (arith, put_all-reads g (set_controller_mode_puts m) buf 0 (omega arith))

pub record SetInputPosMsg : Type 0 where
  pub input_pos : ℕ  -- float
  pub vel_ff : ℕ  -- float
  pub torque_ff : ℕ  -- float

abbrev pub set_input_pos_puts : ⦃f : Float32⦄ → SetInputPosMsg → List Put
set_input_pos_puts m =
    put 32 m.input_pos 0 32
    ∷ put 16 (scaled_i16 m.vel_ff) 32 16
    ∷ put 16 (scaled_i16 m.torque_ff) 48 16
    ∷ []

instance abbrev pub set_input_pos_msg : ⦃f : Float32⦄ → Message SetInputPosMsg
set_input_pos_msg = record {
  cmd_id = 0x00c;
  msg_length = 8;
  encode_buf = λ g m buf. put_all g (set_input_pos_puts m) buf;
  decode_buf = λ buf. record {
    input_pos = get 32 buf 0 32;
    vel_ff = unscaled_i16 (get 16 buf 32 16);
    torque_ff = unscaled_i16 (get 16 buf 48 16);
  };
}

pub set_input_pos_roundtrip :
    ⦃f : Float32⦄
    → (g : Garbage) (m : SetInputPosMsg) (buf : Word) → Fits (set_input_pos_puts m)
    → set_input_pos_msg.decode_buf (set_input_pos_msg.encode_buf g m buf)
      ≡ record m { vel_ff = quantised_i16 m.vel_ff; torque_ff = quantised_i16 m.torque_ff }
unfolding quantised_i16
set_input_pos_roundtrip g m buf fits =
    ground (arith, put_all-reads g (set_input_pos_puts m) buf 0 (omega arith))

pub record SetInputVelMsg : Type 0 where
  pub input_vel : ℕ  -- float
  pub input_torque_ff : ℕ  -- float

abbrev pub set_input_vel_puts : SetInputVelMsg → List Put
set_input_vel_puts m = put 32 m.input_vel 0 32 ∷ put 32 m.input_torque_ff 32 32 ∷ []

instance abbrev pub set_input_vel_msg : Message SetInputVelMsg
set_input_vel_msg = record {
  cmd_id = 0x00d;
  msg_length = 8;
  encode_buf = λ g m buf. put_all g (set_input_vel_puts m) buf;
  decode_buf = λ buf. record { input_vel = get 32 buf 0 32; input_torque_ff = get 32 buf 32 32 };
}

pub set_input_vel_roundtrip :
    (g : Garbage) (m : SetInputVelMsg) (buf : Word)
    → Fits (set_input_vel_puts m)
    → set_input_vel_msg.decode_buf (set_input_vel_msg.encode_buf g m buf) ≡ m
set_input_vel_roundtrip g m buf fits =
    ground (arith, put_all-reads g (set_input_vel_puts m) buf 0 (omega arith))

pub record SetInputTorqueMsg : Type 0 where
  pub input_torque : ℕ  -- float

abbrev pub set_input_torque_puts : SetInputTorqueMsg → List Put
set_input_torque_puts m = put 32 m.input_torque 0 32 ∷ []

instance abbrev pub set_input_torque_msg : Message SetInputTorqueMsg
set_input_torque_msg = record {
  cmd_id = 0x00e;
  msg_length = 8;
  encode_buf = λ g m buf. put_all g (set_input_torque_puts m) buf;
  decode_buf = λ buf. record { input_torque = get 32 buf 0 32 };
}

pub set_input_torque_roundtrip :
    (g : Garbage) (m : SetInputTorqueMsg) (buf : Word)
    → Fits (set_input_torque_puts m)
    → set_input_torque_msg.decode_buf (set_input_torque_msg.encode_buf g m buf) ≡ m
set_input_torque_roundtrip g m buf fits =
    ground (arith, put_all-reads g (set_input_torque_puts m) buf 0 (omega arith))
