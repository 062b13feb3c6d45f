-- ===== src/Can/Messages/Telemetry.antt =====
-- src/odrive_base/include/can_simple_messages.hpp: the messages for currents, temperatures, the bus, torques, powers and the device commands.
-- A `float` is its bit pattern.
use marine_robotics_hil_sea.Base.{ℕ, ◌≡◌, refl, arith, List, [], ◌∷◌}
use marine_robotics_hil_sea.Can.Layout.{Put, put, put_all, Garbage, get, Message}
use marine_robotics_hil_sea.Can.Signal.{Word}
use marine_robotics_hil_sea.Can.Sequence.{Fits, put_all-reads}

pub record GetIqMsg : Type 0 where
  pub iq_setpoint : ℕ  -- float
  pub iq_measured : ℕ  -- float

abbrev pub get_iq_puts : GetIqMsg → List Put
get_iq_puts m = put 32 m.iq_setpoint 0 32 ∷ put 32 m.iq_measured 32 32 ∷ []

instance abbrev pub get_iq_msg : Message GetIqMsg
get_iq_msg = record {
  cmd_id = 0x014;
  msg_length = 8;
  encode_buf = λ g m buf. put_all g (get_iq_puts m) buf;
  decode_buf = λ buf. record { iq_setpoint = get 32 buf 0 32; iq_measured = get 32 buf 32 32 };
}

pub get_iq_roundtrip :
    (g : Garbage) (m : GetIqMsg) (buf : Word)
    → Fits (get_iq_puts m)
    → get_iq_msg.decode_buf (get_iq_msg.encode_buf g m buf) ≡ m
get_iq_roundtrip g m buf fits = ground (arith, put_all-reads g (get_iq_puts m) buf 0 (omega arith))

pub record GetTemperatureMsg : Type 0 where
  pub fet_temperature : ℕ  -- float
  pub motor_temperature : ℕ  -- float

abbrev pub get_temperature_puts : GetTemperatureMsg → List Put
get_temperature_puts m = put 32 m.fet_temperature 0 32 ∷ put 32 m.motor_temperature 32 32 ∷ []

instance abbrev pub get_temperature_msg : Message GetTemperatureMsg
get_temperature_msg = record {
  cmd_id = 0x015;
  msg_length = 8;
  encode_buf = λ g m buf. put_all g (get_temperature_puts m) buf;
  decode_buf =
      λ buf. record { fet_temperature = get 32 buf 0 32; motor_temperature = get 32 buf 32 32 };
}

pub get_temperature_roundtrip :
    (g : Garbage) (m : GetTemperatureMsg) (buf : Word)
    → Fits (get_temperature_puts m)
    → get_temperature_msg.decode_buf (get_temperature_msg.encode_buf g m buf) ≡ m
get_temperature_roundtrip g m buf fits =
    ground (arith, put_all-reads g (get_temperature_puts m) buf 0 (omega arith))

pub record RebootMsg : Type 0 where
  pub action : ℕ  -- uint8_t

abbrev pub reboot_puts : RebootMsg → List Put
reboot_puts m = put 8 m.action 0 8 ∷ []

instance abbrev pub reboot_msg : Message RebootMsg
reboot_msg = record {
  cmd_id = 0x016;
  msg_length = 1;
  encode_buf = λ g m buf. put_all g (reboot_puts m) buf;
  decode_buf = λ buf. record { action = get 8 buf 0 8 };
}

pub reboot_roundtrip :
    (g : Garbage) (m : RebootMsg) (buf : Word)
    → Fits (reboot_puts m)
    → reboot_msg.decode_buf (reboot_msg.encode_buf g m buf) ≡ m
reboot_roundtrip g m buf fits = ground (arith, put_all-reads g (reboot_puts m) buf 0 (omega arith))

pub record GetBusVoltageCurrentMsg : Type 0 where
  pub bus_voltage : ℕ  -- float
  pub bus_current : ℕ  -- float

abbrev pub get_bus_voltage_current_puts : GetBusVoltageCurrentMsg → List Put
get_bus_voltage_current_puts m = put 32 m.bus_voltage 0 32 ∷ put 32 m.bus_current 32 32 ∷ []

instance abbrev pub get_bus_voltage_current_msg : Message GetBusVoltageCurrentMsg
get_bus_voltage_current_msg = record {
  cmd_id = 0x017;
  msg_length = 8;
  encode_buf = λ g m buf. put_all g (get_bus_voltage_current_puts m) buf;
  decode_buf = λ buf. record { bus_voltage = get 32 buf 0 32; bus_current = get 32 buf 32 32 };
}

pub get_bus_voltage_current_roundtrip :
    (g : Garbage) (m : GetBusVoltageCurrentMsg) (buf : Word)
    → Fits (get_bus_voltage_current_puts m)
    → get_bus_voltage_current_msg.decode_buf (get_bus_voltage_current_msg.encode_buf g m buf) ≡ m
get_bus_voltage_current_roundtrip g m buf fits =
    ground (arith, put_all-reads g (get_bus_voltage_current_puts m) buf 0 (omega arith))

pub record ClearErrorsMsg : Type 0 where
  pub identify : ℕ  -- uint8_t

abbrev pub clear_errors_puts : ClearErrorsMsg → List Put
clear_errors_puts m = put 8 m.identify 0 8 ∷ []

instance abbrev pub clear_errors_msg : Message ClearErrorsMsg
clear_errors_msg = record {
  cmd_id = 0x018;
  msg_length = 1;
  encode_buf = λ g m buf. put_all g (clear_errors_puts m) buf;
  decode_buf = λ buf. record { identify = get 8 buf 0 8 };
}

pub clear_errors_roundtrip :
    (g : Garbage) (m : ClearErrorsMsg) (buf : Word)
    → Fits (clear_errors_puts m)
    → clear_errors_msg.decode_buf (clear_errors_msg.encode_buf g m buf) ≡ m
clear_errors_roundtrip g m buf fits =
    ground (arith, put_all-reads g (clear_errors_puts m) buf 0 (omega arith))

pub record GetTorquesMsg : Type 0 where
  pub torque_target : ℕ  -- float
  pub torque_estimate : ℕ  -- float

abbrev pub get_torques_puts : GetTorquesMsg → List Put
get_torques_puts m = put 32 m.torque_target 0 32 ∷ put 32 m.torque_estimate 32 32 ∷ []

instance abbrev pub get_torques_msg : Message GetTorquesMsg
get_torques_msg = record {
  cmd_id = 0x01c;
  msg_length = 8;
  encode_buf = λ g m buf. put_all g (get_torques_puts m) buf;
  decode_buf =
      λ buf. record { torque_target = get 32 buf 0 32; torque_estimate = get 32 buf 32 32 };
}

pub get_torques_roundtrip :
    (g : Garbage) (m : GetTorquesMsg) (buf : Word)
    → Fits (get_torques_puts m)
    → get_torques_msg.decode_buf (get_torques_msg.encode_buf g m buf) ≡ m
get_torques_roundtrip g m buf fits =
    ground (arith, put_all-reads g (get_torques_puts m) buf 0 (omega arith))

pub record GetPowersMsg : Type 0 where
  pub electrical_power : ℕ  -- float
  pub mechanical_power : ℕ  -- float

abbrev pub get_powers_puts : GetPowersMsg → List Put
get_powers_puts m = put 32 m.electrical_power 0 32 ∷ put 32 m.mechanical_power 32 32 ∷ []

instance abbrev pub get_powers_msg : Message GetPowersMsg
get_powers_msg = record {
  cmd_id = 0x01d;
  msg_length = 8;
  encode_buf = λ g m buf. put_all g (get_powers_puts m) buf;
  decode_buf =
      λ buf. record { electrical_power = get 32 buf 0 32; mechanical_power = get 32 buf 32 32 };
}

pub get_powers_roundtrip :
    (g : Garbage) (m : GetPowersMsg) (buf : Word)
    → Fits (get_powers_puts m)
    → get_powers_msg.decode_buf (get_powers_msg.encode_buf g m buf) ≡ m
get_powers_roundtrip g m buf fits =
    ground (arith, put_all-reads g (get_powers_puts m) buf 0 (omega arith))

pub data EnterDfuModeMsg : Type 0 where
  enter_dfu_mode : EnterDfuModeMsg

abbrev pub enter_dfu_mode_puts : EnterDfuModeMsg → List Put
enter_dfu_mode_puts m = []

instance abbrev pub enter_dfu_mode_msg : Message EnterDfuModeMsg
enter_dfu_mode_msg = record {
  cmd_id = 0x01f;
  msg_length = 0;
  encode_buf = λ g m buf. put_all g (enter_dfu_mode_puts m) buf;
  decode_buf = λ buf. enter_dfu_mode;
}

pub enter_dfu_mode_roundtrip :
    (g : Garbage) (m : EnterDfuModeMsg) (buf : Word)
    → enter_dfu_mode_msg.decode_buf (enter_dfu_mode_msg.encode_buf g m buf) ≡ m
enter_dfu_mode_roundtrip g enter_dfu_mode buf = refl
