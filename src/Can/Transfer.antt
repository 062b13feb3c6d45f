-- ===== src/Can/Transfer.antt =====
-- src/odrive_base/include/can_simple_messages.hpp: every message struct from `encode_buf` to `decode_buf`.
use marine_robotics_hil_sea.Base.{◌≡◌, ap}
use marine_robotics_hil_sea.Can.Float32.{Float32, quantised_i16}
use marine_robotics_hil_sea.Can.Layout.{Garbage}
use marine_robotics_hil_sea.Can.Messages.{
  get_version_msg, heartbeat_msg, estop_msg, get_error_msg, address_msg, set_axis_state_msg,
  get_encoder_estimates_msg, set_controller_mode_msg, set_input_pos_msg, set_input_vel_msg,
  set_input_torque_msg, set_limits_msg, set_traj_vel_limit_msg, set_traj_accel_limits_msg,
  set_traj_inertia_msg, get_iq_msg, get_temperature_msg, reboot_msg, get_bus_voltage_current_msg,
  clear_errors_msg, set_absolute_position_msg, set_pos_gain_msg, set_vel_gains_msg, get_torques_msg,
  get_powers_msg, enter_dfu_mode_msg, get_version_roundtrip, heartbeat_roundtrip, estop_roundtrip,
  get_error_roundtrip, address_roundtrip, set_axis_state_roundtrip, get_encoder_estimates_roundtrip,
  set_controller_mode_roundtrip, set_input_pos_roundtrip, set_input_vel_roundtrip,
  set_input_torque_roundtrip, set_limits_roundtrip, set_traj_vel_limit_roundtrip,
  set_traj_accel_limits_roundtrip, set_traj_inertia_roundtrip, get_iq_roundtrip,
  get_temperature_roundtrip, reboot_roundtrip, get_bus_voltage_current_roundtrip,
  clear_errors_roundtrip, set_absolute_position_roundtrip, set_pos_gain_roundtrip,
  set_vel_gains_roundtrip, get_torques_roundtrip, get_powers_roundtrip, enter_dfu_mode_roundtrip,
}
use marine_robotics_hil_sea.Can.Sequence.{Fits}
use marine_robotics_hil_sea.Can.Signal.{Word}
use marine_robotics_hil_sea.Can.Wire.{
  CanMessage, puts_of, get_version, heartbeat, estop, get_error, address, set_axis_state,
  get_encoder_estimates, set_controller_mode, set_input_pos, set_input_vel, set_input_torque,
  set_limits, set_traj_vel_limit, set_traj_accel_limits, set_traj_inertia, get_iq, get_temperature,
  reboot, get_bus_voltage_current, clear_errors, set_absolute_position, set_pos_gain, set_vel_gains,
  get_torques, get_powers, enter_dfu_mode,
}

-- `encode_buf` over a payload, and `decode_buf` of the same struct on the result.
unfoldable pub transfer : ⦃f : Float32⦄ → Garbage → Word → CanMessage → CanMessage
transfer g buf (get_version m) =
    get_version (get_version_msg.decode_buf (get_version_msg.encode_buf g m buf))
transfer g buf (heartbeat m) =
    heartbeat (heartbeat_msg.decode_buf (heartbeat_msg.encode_buf g m buf))
transfer g buf (estop m) = estop (estop_msg.decode_buf (estop_msg.encode_buf g m buf))
transfer g buf (get_error m) =
    get_error (get_error_msg.decode_buf (get_error_msg.encode_buf g m buf))
transfer g buf (address m) = address (address_msg.decode_buf (address_msg.encode_buf g m buf))
transfer g buf (set_axis_state m) =
    set_axis_state (set_axis_state_msg.decode_buf (set_axis_state_msg.encode_buf g m buf))
transfer g buf (get_encoder_estimates m) =
    get_encoder_estimates
      (get_encoder_estimates_msg.decode_buf (get_encoder_estimates_msg.encode_buf g m buf))
transfer g buf (set_controller_mode m) =
    set_controller_mode
      (set_controller_mode_msg.decode_buf (set_controller_mode_msg.encode_buf g m buf))
transfer g buf (set_input_pos m) =
    set_input_pos (set_input_pos_msg.decode_buf (set_input_pos_msg.encode_buf g m buf))
transfer g buf (set_input_vel m) =
    set_input_vel (set_input_vel_msg.decode_buf (set_input_vel_msg.encode_buf g m buf))
transfer g buf (set_input_torque m) =
    set_input_torque (set_input_torque_msg.decode_buf (set_input_torque_msg.encode_buf g m buf))
transfer g buf (set_limits m) =
    set_limits (set_limits_msg.decode_buf (set_limits_msg.encode_buf g m buf))
transfer g buf (set_traj_vel_limit m) =
    set_traj_vel_limit
      (set_traj_vel_limit_msg.decode_buf (set_traj_vel_limit_msg.encode_buf g m buf))
transfer g buf (set_traj_accel_limits m) =
    set_traj_accel_limits
      (set_traj_accel_limits_msg.decode_buf (set_traj_accel_limits_msg.encode_buf g m buf))
transfer g buf (set_traj_inertia m) =
    set_traj_inertia (set_traj_inertia_msg.decode_buf (set_traj_inertia_msg.encode_buf g m buf))
transfer g buf (get_iq m) = get_iq (get_iq_msg.decode_buf (get_iq_msg.encode_buf g m buf))
transfer g buf (get_temperature m) =
    get_temperature (get_temperature_msg.decode_buf (get_temperature_msg.encode_buf g m buf))
transfer g buf (reboot m) = reboot (reboot_msg.decode_buf (reboot_msg.encode_buf g m buf))
transfer g buf (get_bus_voltage_current m) =
    get_bus_voltage_current
      (get_bus_voltage_current_msg.decode_buf (get_bus_voltage_current_msg.encode_buf g m buf))
transfer g buf (clear_errors m) =
    clear_errors (clear_errors_msg.decode_buf (clear_errors_msg.encode_buf g m buf))
transfer g buf (set_absolute_position m) =
    set_absolute_position
      (set_absolute_position_msg.decode_buf (set_absolute_position_msg.encode_buf g m buf))
transfer g buf (set_pos_gain m) =
    set_pos_gain (set_pos_gain_msg.decode_buf (set_pos_gain_msg.encode_buf g m buf))
transfer g buf (set_vel_gains m) =
    set_vel_gains (set_vel_gains_msg.decode_buf (set_vel_gains_msg.encode_buf g m buf))
transfer g buf (get_torques m) =
    get_torques (get_torques_msg.decode_buf (get_torques_msg.encode_buf g m buf))
transfer g buf (get_powers m) =
    get_powers (get_powers_msg.decode_buf (get_powers_msg.encode_buf g m buf))
transfer g buf (enter_dfu_mode m) =
    enter_dfu_mode (enter_dfu_mode_msg.decode_buf (enter_dfu_mode_msg.encode_buf g m buf))

-- What arrives: the two scaled signals of `Set_Input_Pos_msg_t` lose precision, all else does not.
unfoldable pub received : ⦃f : Float32⦄ → CanMessage → CanMessage
received (set_input_pos m) =
    set_input_pos
      (record m { vel_ff = quantised_i16 m.vel_ff; torque_ff = quantised_i16 m.torque_ff })
received m = m

-- Every message struct reads back what it wrote, whatever the payload held and whatever the
-- indeterminate bits of the writes are, if each value fits its signal; the velocity and torque
-- feedforward of `Set_Input_Pos_msg_t` come back rounded to their scale.
pub transfer-received :
    ⦃f : Float32⦄
    → (g : Garbage) (buf : Word) (m : CanMessage) → Fits (puts_of m)
    → transfer g buf m ≡ received m
unfolding transfer received puts_of
transfer-received g buf (get_version m) h = ap get_version (get_version_roundtrip g m buf h)
transfer-received g buf (heartbeat m) h = ap heartbeat (heartbeat_roundtrip g m buf h)
transfer-received g buf (estop m) h = ap estop (estop_roundtrip g m buf)
transfer-received g buf (get_error m) h = ap get_error (get_error_roundtrip g m buf h)
transfer-received g buf (address m) h = ap address (address_roundtrip g m buf h)
transfer-received g buf (set_axis_state m) h =
    ap set_axis_state (set_axis_state_roundtrip g m buf h)
transfer-received g buf (get_encoder_estimates m) h =
    ap get_encoder_estimates (get_encoder_estimates_roundtrip g m buf h)
transfer-received g buf (set_controller_mode m) h =
    ap set_controller_mode (set_controller_mode_roundtrip g m buf h)
transfer-received g buf (set_input_pos m) h = ap set_input_pos (set_input_pos_roundtrip g m buf h)
transfer-received g buf (set_input_vel m) h = ap set_input_vel (set_input_vel_roundtrip g m buf h)
transfer-received g buf (set_input_torque m) h =
    ap set_input_torque (set_input_torque_roundtrip g m buf h)
transfer-received g buf (set_limits m) h = ap set_limits (set_limits_roundtrip g m buf h)
transfer-received g buf (set_traj_vel_limit m) h =
    ap set_traj_vel_limit (set_traj_vel_limit_roundtrip g m buf h)
transfer-received g buf (set_traj_accel_limits m) h =
    ap set_traj_accel_limits (set_traj_accel_limits_roundtrip g m buf h)
transfer-received g buf (set_traj_inertia m) h =
    ap set_traj_inertia (set_traj_inertia_roundtrip g m buf h)
transfer-received g buf (get_iq m) h = ap get_iq (get_iq_roundtrip g m buf h)
transfer-received g buf (get_temperature m) h =
    ap get_temperature (get_temperature_roundtrip g m buf h)
transfer-received g buf (reboot m) h = ap reboot (reboot_roundtrip g m buf h)
transfer-received g buf (get_bus_voltage_current m) h =
    ap get_bus_voltage_current (get_bus_voltage_current_roundtrip g m buf h)
transfer-received g buf (clear_errors m) h = ap clear_errors (clear_errors_roundtrip g m buf h)
transfer-received g buf (set_absolute_position m) h =
    ap set_absolute_position (set_absolute_position_roundtrip g m buf h)
transfer-received g buf (set_pos_gain m) h = ap set_pos_gain (set_pos_gain_roundtrip g m buf h)
transfer-received g buf (set_vel_gains m) h = ap set_vel_gains (set_vel_gains_roundtrip g m buf h)
transfer-received g buf (get_torques m) h = ap get_torques (get_torques_roundtrip g m buf h)
transfer-received g buf (get_powers m) h = ap get_powers (get_powers_roundtrip g m buf h)
transfer-received g buf (enter_dfu_mode m) h = ap enter_dfu_mode (enter_dfu_mode_roundtrip g m buf)
