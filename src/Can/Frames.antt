-- ===== src/Can/Frames.antt =====
-- src/odrive_base/include/can_simple_messages.hpp: ids and lengths of the message structs.
use marine_robotics_hil_sea.Base.{
  ℕ, ◌+◌, ◌*◌, ◌<◌, ◌≤◌, ◌≡◌, refl, sym, ap, ◌∙◌, arith, All, ◌==◌, if◌then◌else◌,
}
use marine_robotics_hil_sea.Can.Float32.{Float32}
use marine_robotics_hil_sea.Can.Messages.{
  get_version_msg, heartbeat_msg, estop_msg, get_error_msg, address_msg, set_axis_state_msg,
  get_encoder_estimates_msg, set_controller_mode_msg, set_input_pos_msg, set_input_vel_msg,
  set_input_torque_msg, set_limits_msg, set_traj_vel_limit_msg, set_traj_accel_limits_msg,
  set_traj_inertia_msg, get_iq_msg, get_temperature_msg, reboot_msg, get_bus_voltage_current_msg,
  clear_errors_msg, set_absolute_position_msg, set_pos_gain_msg, set_vel_gains_msg, get_torques_msg,
  get_powers_msg, enter_dfu_mode_msg,
}
use marine_robotics_hil_sea.Can.Wire.{
  CanMessage, struct_of, cmd_id_of, msg_length_of, puts_of, get_version, heartbeat, estop,
  get_error, address, set_axis_state, get_encoder_estimates, set_controller_mode, set_input_pos,
  set_input_vel, set_input_torque, set_limits, set_traj_vel_limit, set_traj_accel_limits,
  set_traj_inertia, get_iq, get_temperature, reboot, get_bus_voltage_current, clear_errors,
  set_absolute_position, set_pos_gain, set_vel_gains, get_torques, get_powers, enter_dfu_mode,
}

struct_of_id : ℕ → ℕ
struct_of_id n =
    if n == 0x000
    then 0
    else if n == 0x001
    then 1
    else if n == 0x002
    then 2
    else if n == 0x003
    then 3
    else if n == 0x006
    then 4
    else if n == 0x007
    then 5
    else if n == 0x009
    then 6
    else if n == 0x00B
    then 7
    else if n == 0x00C
    then 8
    else if n == 0x00D
    then 9
    else if n == 0x00E
    then 10
    else if n == 0x00F
    then 11
    else if n == 0x011
    then 12
    else if n == 0x012
    then 13
    else if n == 0x013
    then 14
    else if n == 0x014
    then 15
    else if n == 0x015
    then 16
    else if n == 0x016
    then 17
    else if n == 0x017
    then 18
    else if n == 0x018
    then 19
    else if n == 0x019
    then 20
    else if n == 0x01A
    then 21
    else if n == 0x01B
    then 22
    else if n == 0x01C
    then 23
    else if n == 0x01D
    then 24
    else 25

struct_of_id-cmd_id_of : ⦃f : Float32⦄ → (m : CanMessage) → struct_of_id (cmd_id_of m) ≡ struct_of m
unfolding struct_of_id cmd_id_of
struct_of_id-cmd_id_of (get_version m) = refl
struct_of_id-cmd_id_of (heartbeat m) = refl
struct_of_id-cmd_id_of (estop m) = refl
struct_of_id-cmd_id_of (get_error m) = refl
struct_of_id-cmd_id_of (address m) = refl
struct_of_id-cmd_id_of (set_axis_state m) = refl
struct_of_id-cmd_id_of (get_encoder_estimates m) = refl
struct_of_id-cmd_id_of (set_controller_mode m) = refl
struct_of_id-cmd_id_of (set_input_pos m) = refl
struct_of_id-cmd_id_of (set_input_vel m) = refl
struct_of_id-cmd_id_of (set_input_torque m) = refl
struct_of_id-cmd_id_of (set_limits m) = refl
struct_of_id-cmd_id_of (set_traj_vel_limit m) = refl
struct_of_id-cmd_id_of (set_traj_accel_limits m) = refl
struct_of_id-cmd_id_of (set_traj_inertia m) = refl
struct_of_id-cmd_id_of (get_iq m) = refl
struct_of_id-cmd_id_of (get_temperature m) = refl
struct_of_id-cmd_id_of (reboot m) = refl
struct_of_id-cmd_id_of (get_bus_voltage_current m) = refl
struct_of_id-cmd_id_of (clear_errors m) = refl
struct_of_id-cmd_id_of (set_absolute_position m) = refl
struct_of_id-cmd_id_of (set_pos_gain m) = refl
struct_of_id-cmd_id_of (set_vel_gains m) = refl
struct_of_id-cmd_id_of (get_torques m) = refl
struct_of_id-cmd_id_of (get_powers m) = refl
struct_of_id-cmd_id_of (enter_dfu_mode m) = refl

-- Two messages with the same command id are values of the same struct.
pub cmd_id_of-injective :
    ⦃f : Float32⦄ → (m n : CanMessage) → cmd_id_of m ≡ cmd_id_of n → struct_of m ≡ struct_of n
cmd_id_of-injective m n h =
    sym (struct_of_id-cmd_id_of m) ∙ ap struct_of_id h ∙ struct_of_id-cmd_id_of n

-- Every struct fits a frame: its command id has 5 bits, its length is at most 8 bytes, and the
-- signals that it writes lie within its length.
pub frame_fits :
    ⦃f : Float32⦄
    → (m : CanMessage)
    → (cmd_id_of m < 32)
      × (msg_length_of m ≤ 8)
      × All (λ c. c.start + c.len ≤ 8 * msg_length_of m) (puts_of m)
unfolding cmd_id_of msg_length_of puts_of
frame_fits (get_version m) = ground arith
frame_fits (heartbeat m) = ground arith
frame_fits (estop m) = ground arith
frame_fits (get_error m) = ground arith
frame_fits (address m) = ground arith
frame_fits (set_axis_state m) = ground arith
frame_fits (get_encoder_estimates m) = ground arith
frame_fits (set_controller_mode m) = ground arith
frame_fits (set_input_pos m) = ground arith
frame_fits (set_input_vel m) = ground arith
frame_fits (set_input_torque m) = ground arith
frame_fits (set_limits m) = ground arith
frame_fits (set_traj_vel_limit m) = ground arith
frame_fits (set_traj_accel_limits m) = ground arith
frame_fits (set_traj_inertia m) = ground arith
frame_fits (get_iq m) = ground arith
frame_fits (get_temperature m) = ground arith
frame_fits (reboot m) = ground arith
frame_fits (get_bus_voltage_current m) = ground arith
frame_fits (clear_errors m) = ground arith
frame_fits (set_absolute_position m) = ground arith
frame_fits (set_pos_gain m) = ground arith
frame_fits (set_vel_gains m) = ground arith
frame_fits (get_torques m) = ground arith
frame_fits (get_powers m) = ground arith
frame_fits (enter_dfu_mode m) = ground arith
