-- ===== src/Can/Messages/Status.antt =====
-- src/odrive_base/include/can_simple_messages.hpp: the messages for identification, heartbeat, errors and addresses.
-- A `float` is its bit pattern.
use marine_robotics_hil_sea.Base.{ℕ, ◌≡◌, refl, arith, List, [], ◌∷◌}
use marine_robotics_hil_sea.Can.Layout.{Put, put, put_all, Garbage, get, Message}
use marine_robotics_hil_sea.Can.Signal.{Word}
use marine_robotics_hil_sea.Can.Sequence.{Fits, put_all-reads}

pub record GetVersionMsg : Type 0 where
  pub protocol_version : ℕ  -- uint8_t
  pub hw_version_major : ℕ  -- uint8_t
  pub hw_version_minor : ℕ  -- uint8_t
  pub hw_version_variant : ℕ  -- uint8_t
  pub fw_version_major : ℕ  -- uint8_t
  pub fw_version_minor : ℕ  -- uint8_t
  pub fw_version_revision : ℕ  -- uint8_t
  pub fw_version_unreleased : ℕ  -- uint8_t

abbrev pub get_version_puts : GetVersionMsg → List Put
get_version_puts m =
    put 8 m.protocol_version 0 8
    ∷ put 8 m.hw_version_major 8 8
    ∷ put 8 m.hw_version_minor 16 8
    ∷ put 8 m.hw_version_variant 24 8
    ∷ put 8 m.fw_version_major 32 8
    ∷ put 8 m.fw_version_minor 40 8
    ∷ put 8 m.fw_version_revision 48 8
    ∷ put 8 m.fw_version_unreleased 56 8
    ∷ []

instance abbrev pub get_version_msg : Message GetVersionMsg
get_version_msg = record {
  cmd_id = 0x000;
  msg_length = 8;
  encode_buf = λ g m buf. put_all g (get_version_puts m) buf;
  decode_buf = λ buf. record {
    protocol_version = get 8 buf 0 8;
    hw_version_major = get 8 buf 8 8;
    hw_version_minor = get 8 buf 16 8;
    hw_version_variant = get 8 buf 24 8;
    fw_version_major = get 8 buf 32 8;
    fw_version_minor = get 8 buf 40 8;
    fw_version_revision = get 8 buf 48 8;
    fw_version_unreleased = get 8 buf 56 8;
  };
}

pub get_version_roundtrip :
    (g : Garbage) (m : GetVersionMsg) (buf : Word)
    → Fits (get_version_puts m)
    → get_version_msg.decode_buf (get_version_msg.encode_buf g m buf) ≡ m
get_version_roundtrip g m buf fits =
    ground (arith, put_all-reads g (get_version_puts m) buf 0 (omega arith))

pub record HeartbeatMsg : Type 0 where
  pub axis_error : ℕ  -- uint32_t
  pub axis_state : ℕ  -- uint8_t
  pub procedure_result : ℕ  -- uint8_t
  pub trajectory_done_flag : ℕ  -- uint8_t

abbrev pub heartbeat_puts : HeartbeatMsg → List Put
heartbeat_puts m =
    put 32 m.axis_error 0 32
    ∷ put 8 m.axis_state 32 8
    ∷ put 8 m.procedure_result 40 8
    ∷ put 8 m.trajectory_done_flag 48 1
    ∷ []

instance abbrev pub heartbeat_msg : Message HeartbeatMsg
heartbeat_msg = record {
  cmd_id = 0x001;
  msg_length = 8;
  encode_buf = λ g m buf. put_all g (heartbeat_puts m) buf;
  decode_buf = λ buf. record {
    axis_error = get 32 buf 0 32;
    axis_state = get 8 buf 32 8;
    procedure_result = get 8 buf 40 8;
    trajectory_done_flag = get 8 buf 48 1;
  };
}

pub heartbeat_roundtrip :
    (g : Garbage) (m : HeartbeatMsg) (buf : Word)
    → Fits (heartbeat_puts m)
    → heartbeat_msg.decode_buf (heartbeat_msg.encode_buf g m buf) ≡ m
heartbeat_roundtrip g m buf fits =
    ground (arith, put_all-reads g (heartbeat_puts m) buf 0 (omega arith))

pub data EstopMsg : Type 0 where
  estop : EstopMsg

abbrev pub estop_puts : EstopMsg → List Put
estop_puts m = []

instance abbrev pub estop_msg : Message EstopMsg
estop_msg = record {
  cmd_id = 0x002;
  msg_length = 0;
  encode_buf = λ g m buf. put_all g (estop_puts m) buf;
  decode_buf = λ buf. estop;
}

pub estop_roundtrip :
    (g : Garbage) (m : EstopMsg) (buf : Word)
    → estop_msg.decode_buf (estop_msg.encode_buf g m buf) ≡ m
estop_roundtrip g estop buf = refl

pub record GetErrorMsg : Type 0 where
  pub active_errors : ℕ  -- uint32_t
  pub disarm_reason : ℕ  -- uint32_t

abbrev pub get_error_puts : GetErrorMsg → List Put
get_error_puts m = put 32 m.active_errors 0 32 ∷ put 32 m.disarm_reason 32 32 ∷ []

instance abbrev pub get_error_msg : Message GetErrorMsg
get_error_msg = record {
  cmd_id = 0x003;
  msg_length = 8;
  encode_buf = λ g m buf. put_all g (get_error_puts m) buf;
  decode_buf = λ buf. record { active_errors = get 32 buf 0 32; disarm_reason = get 32 buf 32 32 };
}

pub get_error_roundtrip :
    (g : Garbage) (m : GetErrorMsg) (buf : Word)
    → Fits (get_error_puts m)
    → get_error_msg.decode_buf (get_error_msg.encode_buf g m buf) ≡ m
get_error_roundtrip g m buf fits =
    ground (arith, put_all-reads g (get_error_puts m) buf 0 (omega arith))

pub record AddressMsg : Type 0 where
  pub node_id : ℕ  -- uint8_t
  pub serial_number : ℕ  -- uint64_t

abbrev pub address_puts : AddressMsg → List Put
address_puts m = put 8 m.node_id 0 8 ∷ put 64 m.serial_number 8 48 ∷ []

instance abbrev pub address_msg : Message AddressMsg
address_msg = record {
  cmd_id = 0x006;
  msg_length = 8;
  encode_buf = λ g m buf. put_all g (address_puts m) buf;
  decode_buf = λ buf. record { node_id = get 8 buf 0 8; serial_number = get 64 buf 8 48 };
}

pub address_roundtrip :
    (g : Garbage) (m : AddressMsg) (buf : Word)
    → Fits (address_puts m)
    → address_msg.decode_buf (address_msg.encode_buf g m buf) ≡ m
address_roundtrip g m buf fits =
    ground (arith, put_all-reads g (address_puts m) buf 0 (omega arith))
