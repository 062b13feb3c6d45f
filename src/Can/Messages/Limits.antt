-- ===== src/Can/Messages/Limits.antt =====
-- src/odrive_base/include/can_simple_messages.hpp: the messages for limits, trajectories, gains and the absolute position.
-- A `float` is its bit pattern.
use marine_robotics_hil_sea.Base.{ℕ, ◌≡◌, arith, List, [], ◌∷◌}
use marine_robotics_hil_sea.Can.Layout.{Put, put, put_all, Garbage, get, Message}
use marine_robotics_hil_sea.Can.Signal.{Word}
use marine_robotics_hil_sea.Can.Sequence.{Fits, put_all-reads}

pub record SetLimitsMsg : Type 0 where
  pub velocity_limit : ℕ  -- float
  pub current_limit : ℕ  -- float

abbrev pub set_limits_puts : SetLimitsMsg → List Put
set_limits_puts m = put 32 m.velocity_limit 0 32 ∷ put 32 m.current_limit 32 32 ∷ []

instance abbrev pub set_limits_msg : Message SetLimitsMsg
set_limits_msg = record {
  cmd_id = 0x00f;
  msg_length = 8;
  encode_buf = λ g m buf. put_all g (set_limits_puts m) buf;
  decode_buf = λ buf. record { velocity_limit = get 32 buf 0 32; current_limit = get 32 buf 32 32 };
}

pub set_limits_roundtrip :
    (g : Garbage) (m : SetLimitsMsg) (buf : Word)
    → Fits (set_limits_puts m)
    → set_limits_msg.decode_buf (set_limits_msg.encode_buf g m buf) ≡ m
set_limits_roundtrip g m buf fits =
    ground (arith, put_all-reads g (set_limits_puts m) buf 0 (omega arith))

pub record SetTrajVelLimitMsg : Type 0 where
  pub traj_vel_limit : ℕ  -- float

abbrev pub set_traj_vel_limit_puts : SetTrajVelLimitMsg → List Put
set_traj_vel_limit_puts m = put 32 m.traj_vel_limit 0 32 ∷ []

instance abbrev pub set_traj_vel_limit_msg : Message SetTrajVelLimitMsg
set_traj_vel_limit_msg = record {
  cmd_id = 0x011;
  msg_length = 8;
  encode_buf = λ g m buf. put_all g (set_traj_vel_limit_puts m) buf;
  decode_buf = λ buf. record { traj_vel_limit = get 32 buf 0 32 };
}

pub set_traj_vel_limit_roundtrip :
    (g : Garbage) (m : SetTrajVelLimitMsg) (buf : Word)
    → Fits (set_traj_vel_limit_puts m)
    → set_traj_vel_limit_msg.decode_buf (set_traj_vel_limit_msg.encode_buf g m buf) ≡ m
set_traj_vel_limit_roundtrip g m buf fits =
    ground (arith, put_all-reads g (set_traj_vel_limit_puts m) buf 0 (omega arith))

pub record SetTrajAccelLimitsMsg : Type 0 where
  pub traj_accel_limit : ℕ  -- float
  pub traj_decel_limit : ℕ  -- float

abbrev pub set_traj_accel_limits_puts : SetTrajAccelLimitsMsg → List Put
set_traj_accel_limits_puts m = put 32 m.traj_accel_limit 0 32 ∷ put 32 m.traj_decel_limit 32 32 ∷ []

instance abbrev pub set_traj_accel_limits_msg : Message SetTrajAccelLimitsMsg
set_traj_accel_limits_msg = record {
  cmd_id = 0x012;
  msg_length = 8;
  encode_buf = λ g m buf. put_all g (set_traj_accel_limits_puts m) buf;
  decode_buf =
      λ buf. record { traj_accel_limit = get 32 buf 0 32; traj_decel_limit = get 32 buf 32 32 };
}

pub set_traj_accel_limits_roundtrip :
    (g : Garbage) (m : SetTrajAccelLimitsMsg) (buf : Word)
    → Fits (set_traj_accel_limits_puts m)
    → set_traj_accel_limits_msg.decode_buf (set_traj_accel_limits_msg.encode_buf g m buf) ≡ m
set_traj_accel_limits_roundtrip g m buf fits =
    ground (arith, put_all-reads g (set_traj_accel_limits_puts m) buf 0 (omega arith))

pub record SetTrajInertiaMsg : Type 0 where
  pub traj_inertia : ℕ  -- float

abbrev pub set_traj_inertia_puts : SetTrajInertiaMsg → List Put
set_traj_inertia_puts m = put 32 m.traj_inertia 0 32 ∷ []

instance abbrev pub set_traj_inertia_msg : Message SetTrajInertiaMsg
set_traj_inertia_msg = record {
  cmd_id = 0x013;
  msg_length = 8;
  encode_buf = λ g m buf. put_all g (set_traj_inertia_puts m) buf;
  decode_buf = λ buf. record { traj_inertia = get 32 buf 0 32 };
}

pub set_traj_inertia_roundtrip :
    (g : Garbage) (m : SetTrajInertiaMsg) (buf : Word)
    → Fits (set_traj_inertia_puts m)
    → set_traj_inertia_msg.decode_buf (set_traj_inertia_msg.encode_buf g m buf) ≡ m
set_traj_inertia_roundtrip g m buf fits =
    ground (arith, put_all-reads g (set_traj_inertia_puts m) buf 0 (omega arith))

pub record SetAbsolutePositionMsg : Type 0 where
  pub position : ℕ  -- float

abbrev pub set_absolute_position_puts : SetAbsolutePositionMsg → List Put
set_absolute_position_puts m = put 32 m.position 0 32 ∷ []

instance abbrev pub set_absolute_position_msg : Message SetAbsolutePositionMsg
set_absolute_position_msg = record {
  cmd_id = 0x019;
  msg_length = 8;
  encode_buf = λ g m buf. put_all g (set_absolute_position_puts m) buf;
  decode_buf = λ buf. record { position = get 32 buf 0 32 };
}

pub set_absolute_position_roundtrip :
    (g : Garbage) (m : SetAbsolutePositionMsg) (buf : Word)
    → Fits (set_absolute_position_puts m)
    → set_absolute_position_msg.decode_buf (set_absolute_position_msg.encode_buf g m buf) ≡ m
set_absolute_position_roundtrip g m buf fits =
    ground (arith, put_all-reads g (set_absolute_position_puts m) buf 0 (omega arith))

pub record SetPosGainMsg : Type 0 where
  pub pos_gain : ℕ  -- float

abbrev pub set_pos_gain_puts : SetPosGainMsg → List Put
set_pos_gain_puts m = put 32 m.pos_gain 0 32 ∷ []

instance abbrev pub set_pos_gain_msg : Message SetPosGainMsg
set_pos_gain_msg = record {
  cmd_id = 0x01a;
  msg_length = 8;
  encode_buf = λ g m buf. put_all g (set_pos_gain_puts m) buf;
  decode_buf = λ buf. record { pos_gain = get 32 buf 0 32 };
}

pub set_pos_gain_roundtrip :
    (g : Garbage) (m : SetPosGainMsg) (buf : Word)
    → Fits (set_pos_gain_puts m)
    → set_pos_gain_msg.decode_buf (set_pos_gain_msg.encode_buf g m buf) ≡ m
set_pos_gain_roundtrip g m buf fits =
    ground (arith, put_all-reads g (set_pos_gain_puts m) buf 0 (omega arith))

pub record SetVelGainsMsg : Type 0 where
  pub vel_gain : ℕ  -- float
  pub vel_integrator_gain : ℕ  -- float

abbrev pub set_vel_gains_puts : SetVelGainsMsg → List Put
set_vel_gains_puts m = put 32 m.vel_gain 0 32 ∷ put 32 m.vel_integrator_gain 32 32 ∷ []

instance abbrev pub set_vel_gains_msg : Message SetVelGainsMsg
set_vel_gains_msg = record {
  cmd_id = 0x01b;
  msg_length = 8;
  encode_buf = λ g m buf. put_all g (set_vel_gains_puts m) buf;
  decode_buf = λ buf. record { vel_gain = get 32 buf 0 32; vel_integrator_gain = get 32 buf 32 32 };
}

pub set_vel_gains_roundtrip :
    (g : Garbage) (m : SetVelGainsMsg) (buf : Word)
    → Fits (set_vel_gains_puts m)
    → set_vel_gains_msg.decode_buf (set_vel_gains_msg.encode_buf g m buf) ≡ m
set_vel_gains_roundtrip g m buf fits =
    ground (arith, put_all-reads g (set_vel_gains_puts m) buf 0 (omega arith))
