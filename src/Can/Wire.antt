-- ===== src/Can/Wire.antt =====
-- src/odrive_base/include/can_simple_messages.hpp: all message structs together.
use marine_robotics_hil_sea.Base.{ℕ, List}
use marine_robotics_hil_sea.Can.Float32.{Float32}
use marine_robotics_hil_sea.Can.Layout.{Put}
use marine_robotics_hil_sea.Can.Messages.{
  GetVersionMsg, HeartbeatMsg, EstopMsg, GetErrorMsg, AddressMsg, SetAxisStateMsg,
  GetEncoderEstimatesMsg, SetControllerModeMsg, SetInputPosMsg, SetInputVelMsg, SetInputTorqueMsg,
  SetLimitsMsg, SetTrajVelLimitMsg, SetTrajAccelLimitsMsg, SetTrajInertiaMsg, GetIqMsg,
  GetTemperatureMsg, RebootMsg, GetBusVoltageCurrentMsg, ClearErrorsMsg, SetAbsolutePositionMsg,
  SetPosGainMsg, SetVelGainsMsg, GetTorquesMsg, GetPowersMsg, EnterDfuModeMsg, get_version_msg,
  heartbeat_msg, estop_msg, get_error_msg, address_msg, set_axis_state_msg,
  get_encoder_estimates_msg, set_controller_mode_msg, set_input_pos_msg, set_input_vel_msg,
  set_input_torque_msg, set_limits_msg, set_traj_vel_limit_msg, set_traj_accel_limits_msg,
  set_traj_inertia_msg, get_iq_msg, get_temperature_msg, reboot_msg, get_bus_voltage_current_msg,
  clear_errors_msg, set_absolute_position_msg, set_pos_gain_msg, set_vel_gains_msg, get_torques_msg,
  get_powers_msg, enter_dfu_mode_msg, get_version_puts, heartbeat_puts, estop_puts, get_error_puts,
  address_puts, set_axis_state_puts, get_encoder_estimates_puts, set_controller_mode_puts,
  set_input_pos_puts, set_input_vel_puts, set_input_torque_puts, set_limits_puts,
  set_traj_vel_limit_puts, set_traj_accel_limits_puts, set_traj_inertia_puts, get_iq_puts,
  get_temperature_puts, reboot_puts, get_bus_voltage_current_puts, clear_errors_puts,
  set_absolute_position_puts, set_pos_gain_puts, set_vel_gains_puts, get_torques_puts,
  get_powers_puts, enter_dfu_mode_puts,
}

-- A value of one of the structs.
pub data CanMessage : Type 0 where
  get_version : GetVersionMsg → CanMessage
  heartbeat : HeartbeatMsg → CanMessage
  estop : EstopMsg → CanMessage
  get_error : GetErrorMsg → CanMessage
  address : AddressMsg → CanMessage
  set_axis_state : SetAxisStateMsg → CanMessage
  get_encoder_estimates : GetEncoderEstimatesMsg → CanMessage
  set_controller_mode : SetControllerModeMsg → CanMessage
  set_input_pos : SetInputPosMsg → CanMessage
  set_input_vel : SetInputVelMsg → CanMessage
  set_input_torque : SetInputTorqueMsg → CanMessage
  set_limits : SetLimitsMsg → CanMessage
  set_traj_vel_limit : SetTrajVelLimitMsg → CanMessage
  set_traj_accel_limits : SetTrajAccelLimitsMsg → CanMessage
  set_traj_inertia : SetTrajInertiaMsg → CanMessage
  get_iq : GetIqMsg → CanMessage
  get_temperature : GetTemperatureMsg → CanMessage
  reboot : RebootMsg → CanMessage
  get_bus_voltage_current : GetBusVoltageCurrentMsg → CanMessage
  clear_errors : ClearErrorsMsg → CanMessage
  set_absolute_position : SetAbsolutePositionMsg → CanMessage
  set_pos_gain : SetPosGainMsg → CanMessage
  set_vel_gains : SetVelGainsMsg → CanMessage
  get_torques : GetTorquesMsg → CanMessage
  get_powers : GetPowersMsg → CanMessage
  enter_dfu_mode : EnterDfuModeMsg → CanMessage

-- The number of the struct, in the order of the file.
abbrev pub struct_of : CanMessage → ℕ
struct_of (get_version m) = 0
struct_of (heartbeat m) = 1
struct_of (estop m) = 2
struct_of (get_error m) = 3
struct_of (address m) = 4
struct_of (set_axis_state m) = 5
struct_of (get_encoder_estimates m) = 6
struct_of (set_controller_mode m) = 7
struct_of (set_input_pos m) = 8
struct_of (set_input_vel m) = 9
struct_of (set_input_torque m) = 10
struct_of (set_limits m) = 11
struct_of (set_traj_vel_limit m) = 12
struct_of (set_traj_accel_limits m) = 13
struct_of (set_traj_inertia m) = 14
struct_of (get_iq m) = 15
struct_of (get_temperature m) = 16
struct_of (reboot m) = 17
struct_of (get_bus_voltage_current m) = 18
struct_of (clear_errors m) = 19
struct_of (set_absolute_position m) = 20
struct_of (set_pos_gain m) = 21
struct_of (set_vel_gains m) = 22
struct_of (get_torques m) = 23
struct_of (get_powers m) = 24
struct_of (enter_dfu_mode m) = 25

unfoldable pub cmd_id_of : ⦃f : Float32⦄ → CanMessage → ℕ
cmd_id_of (get_version m) = get_version_msg.cmd_id
cmd_id_of (heartbeat m) = heartbeat_msg.cmd_id
cmd_id_of (estop m) = estop_msg.cmd_id
cmd_id_of (get_error m) = get_error_msg.cmd_id
cmd_id_of (address m) = address_msg.cmd_id
cmd_id_of (set_axis_state m) = set_axis_state_msg.cmd_id
cmd_id_of (get_encoder_estimates m) = get_encoder_estimates_msg.cmd_id
cmd_id_of (set_controller_mode m) = set_controller_mode_msg.cmd_id
cmd_id_of (set_input_pos m) = set_input_pos_msg.cmd_id
cmd_id_of (set_input_vel m) = set_input_vel_msg.cmd_id
cmd_id_of (set_input_torque m) = set_input_torque_msg.cmd_id
cmd_id_of (set_limits m) = set_limits_msg.cmd_id
cmd_id_of (set_traj_vel_limit m) = set_traj_vel_limit_msg.cmd_id
cmd_id_of (set_traj_accel_limits m) = set_traj_accel_limits_msg.cmd_id
cmd_id_of (set_traj_inertia m) = set_traj_inertia_msg.cmd_id
cmd_id_of (get_iq m) = get_iq_msg.cmd_id
cmd_id_of (get_temperature m) = get_temperature_msg.cmd_id
cmd_id_of (reboot m) = reboot_msg.cmd_id
cmd_id_of (get_bus_voltage_current m) = get_bus_voltage_current_msg.cmd_id
cmd_id_of (clear_errors m) = clear_errors_msg.cmd_id
cmd_id_of (set_absolute_position m) = set_absolute_position_msg.cmd_id
cmd_id_of (set_pos_gain m) = set_pos_gain_msg.cmd_id
cmd_id_of (set_vel_gains m) = set_vel_gains_msg.cmd_id
cmd_id_of (get_torques m) = get_torques_msg.cmd_id
cmd_id_of (get_powers m) = get_powers_msg.cmd_id
cmd_id_of (enter_dfu_mode m) = enter_dfu_mode_msg.cmd_id

unfoldable pub msg_length_of : ⦃f : Float32⦄ → CanMessage → ℕ
msg_length_of (get_version m) = get_version_msg.msg_length
msg_length_of (heartbeat m) = heartbeat_msg.msg_length
msg_length_of (estop m) = estop_msg.msg_length
msg_length_of (get_error m) = get_error_msg.msg_length
msg_length_of (address m) = address_msg.msg_length
msg_length_of (set_axis_state m) = set_axis_state_msg.msg_length
msg_length_of (get_encoder_estimates m) = get_encoder_estimates_msg.msg_length
msg_length_of (set_controller_mode m) = set_controller_mode_msg.msg_length
msg_length_of (set_input_pos m) = set_input_pos_msg.msg_length
msg_length_of (set_input_vel m) = set_input_vel_msg.msg_length
msg_length_of (set_input_torque m) = set_input_torque_msg.msg_length
msg_length_of (set_limits m) = set_limits_msg.msg_length
msg_length_of (set_traj_vel_limit m) = set_traj_vel_limit_msg.msg_length
msg_length_of (set_traj_accel_limits m) = set_traj_accel_limits_msg.msg_length
msg_length_of (set_traj_inertia m) = set_traj_inertia_msg.msg_length
msg_length_of (get_iq m) = get_iq_msg.msg_length
msg_length_of (get_temperature m) = get_temperature_msg.msg_length
msg_length_of (reboot m) = reboot_msg.msg_length
msg_length_of (get_bus_voltage_current m) = get_bus_voltage_current_msg.msg_length
msg_length_of (clear_errors m) = clear_errors_msg.msg_length
msg_length_of (set_absolute_position m) = set_absolute_position_msg.msg_length
msg_length_of (set_pos_gain m) = set_pos_gain_msg.msg_length
msg_length_of (set_vel_gains m) = set_vel_gains_msg.msg_length
msg_length_of (get_torques m) = get_torques_msg.msg_length
msg_length_of (get_powers m) = get_powers_msg.msg_length
msg_length_of (enter_dfu_mode m) = enter_dfu_mode_msg.msg_length

-- The signals that `encode_buf` writes.
unfoldable pub puts_of : ⦃f : Float32⦄ → CanMessage → List Put
puts_of (get_version m) = get_version_puts m
puts_of (heartbeat m) = heartbeat_puts m
puts_of (estop m) = estop_puts m
puts_of (get_error m) = get_error_puts m
puts_of (address m) = address_puts m
puts_of (set_axis_state m) = set_axis_state_puts m
puts_of (get_encoder_estimates m) = get_encoder_estimates_puts m
puts_of (set_controller_mode m) = set_controller_mode_puts m
puts_of (set_input_pos m) = set_input_pos_puts m
puts_of (set_input_vel m) = set_input_vel_puts m
puts_of (set_input_torque m) = set_input_torque_puts m
puts_of (set_limits m) = set_limits_puts m
puts_of (set_traj_vel_limit m) = set_traj_vel_limit_puts m
puts_of (set_traj_accel_limits m) = set_traj_accel_limits_puts m
puts_of (set_traj_inertia m) = set_traj_inertia_puts m
puts_of (get_iq m) = get_iq_puts m
puts_of (get_temperature m) = get_temperature_puts m
puts_of (reboot m) = reboot_puts m
puts_of (get_bus_voltage_current m) = get_bus_voltage_current_puts m
puts_of (clear_errors m) = clear_errors_puts m
puts_of (set_absolute_position m) = set_absolute_position_puts m
puts_of (set_pos_gain m) = set_pos_gain_puts m
puts_of (set_vel_gains m) = set_vel_gains_puts m
puts_of (get_torques m) = get_torques_puts m
puts_of (get_powers m) = get_powers_puts m
puts_of (enter_dfu_mode m) = enter_dfu_mode_puts m
