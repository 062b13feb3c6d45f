-- ===== src/Enums/Axis.antt =====
-- odrive_enums.h: the enumerations of the axis, its controller and its procedures, with the value of each enumerator.
use marine_robotics_hil_sea.Base.{ℕ, [], ◌∷◌, ◌≡◌, some, arith}
use marine_robotics_hil_sea.Enums.Defs.{Enumeration, value, of_value}

pub data OdriveAxisState : Type 0 where
  axis_state_undefined axis_state_idle axis_state_startup_sequence
        axis_state_full_calibration_sequence axis_state_motor_calibration
        axis_state_encoder_index_search axis_state_encoder_offset_calibration
        axis_state_closed_loop_control axis_state_lockin_spin axis_state_encoder_dir_find
        axis_state_homing axis_state_encoder_hall_polarity_calibration
        axis_state_encoder_hall_phase_calibration axis_state_anticogging_calibration :
      OdriveAxisState

abbrev odrive_axis_state_value : OdriveAxisState → ℕ
odrive_axis_state_value axis_state_undefined = 0
odrive_axis_state_value axis_state_idle = 1
odrive_axis_state_value axis_state_startup_sequence = 2
odrive_axis_state_value axis_state_full_calibration_sequence = 3
odrive_axis_state_value axis_state_motor_calibration = 4
odrive_axis_state_value axis_state_encoder_index_search = 6
odrive_axis_state_value axis_state_encoder_offset_calibration = 7
odrive_axis_state_value axis_state_closed_loop_control = 8
odrive_axis_state_value axis_state_lockin_spin = 9
odrive_axis_state_value axis_state_encoder_dir_find = 10
odrive_axis_state_value axis_state_homing = 11
odrive_axis_state_value axis_state_encoder_hall_polarity_calibration = 12
odrive_axis_state_value axis_state_encoder_hall_phase_calibration = 13
odrive_axis_state_value axis_state_anticogging_calibration = 14

instance abbrev pub odrive_axis_state : Enumeration OdriveAxisState
odrive_axis_state = record {
  value = odrive_axis_state_value;
  enumerators =
      axis_state_undefined ∷ axis_state_idle ∷ axis_state_startup_sequence
      ∷ axis_state_full_calibration_sequence ∷ axis_state_motor_calibration
      ∷ axis_state_encoder_index_search ∷ axis_state_encoder_offset_calibration
      ∷ axis_state_closed_loop_control ∷ axis_state_lockin_spin ∷ axis_state_encoder_dir_find
      ∷ axis_state_homing ∷ axis_state_encoder_hall_polarity_calibration
      ∷ axis_state_encoder_hall_phase_calibration ∷ axis_state_anticogging_calibration ∷ [];
}

pub odrive_axis_state-of_value : (e : OdriveAxisState) → of_value (value e) ≡ some e
unfolding of_value
odrive_axis_state-of_value e = ground arith

pub data OdriveControlMode : Type 0 where
  control_mode_voltage_control control_mode_torque_control control_mode_velocity_control
        control_mode_position_control :
      OdriveControlMode

abbrev odrive_control_mode_value : OdriveControlMode → ℕ
odrive_control_mode_value control_mode_voltage_control = 0
odrive_control_mode_value control_mode_torque_control = 1
odrive_control_mode_value control_mode_velocity_control = 2
odrive_control_mode_value control_mode_position_control = 3

instance abbrev pub odrive_control_mode : Enumeration OdriveControlMode
odrive_control_mode = record {
  value = odrive_control_mode_value;
  enumerators =
      control_mode_voltage_control ∷ control_mode_torque_control ∷ control_mode_velocity_control
      ∷ control_mode_position_control ∷ [];
}

pub odrive_control_mode-of_value : (e : OdriveControlMode) → of_value (value e) ≡ some e
unfolding of_value
odrive_control_mode-of_value e = ground arith

pub data OdriveInputMode : Type 0 where
  input_mode_inactive input_mode_passthrough input_mode_vel_ramp input_mode_pos_filter
        input_mode_mix_channels input_mode_trap_traj input_mode_torque_ramp input_mode_mirror
        input_mode_tuning :
      OdriveInputMode

abbrev odrive_input_mode_value : OdriveInputMode → ℕ
odrive_input_mode_value input_mode_inactive = 0
odrive_input_mode_value input_mode_passthrough = 1
odrive_input_mode_value input_mode_vel_ramp = 2
odrive_input_mode_value input_mode_pos_filter = 3
odrive_input_mode_value input_mode_mix_channels = 4
odrive_input_mode_value input_mode_trap_traj = 5
odrive_input_mode_value input_mode_torque_ramp = 6
odrive_input_mode_value input_mode_mirror = 7
odrive_input_mode_value input_mode_tuning = 8

instance abbrev pub odrive_input_mode : Enumeration OdriveInputMode
odrive_input_mode = record {
  value = odrive_input_mode_value;
  enumerators =
      input_mode_inactive ∷ input_mode_passthrough ∷ input_mode_vel_ramp ∷ input_mode_pos_filter
      ∷ input_mode_mix_channels ∷ input_mode_trap_traj ∷ input_mode_torque_ramp ∷ input_mode_mirror
      ∷ input_mode_tuning ∷ [];
}

pub odrive_input_mode-of_value : (e : OdriveInputMode) → of_value (value e) ≡ some e
unfolding of_value
odrive_input_mode-of_value e = ground arith

pub data OdriveProcedureResult : Type 0 where
  procedure_result_success procedure_result_busy procedure_result_cancelled
        procedure_result_disarmed procedure_result_no_response
        procedure_result_pole_pair_cpr_mismatch procedure_result_phase_resistance_out_of_range
        procedure_result_phase_inductance_out_of_range procedure_result_unbalanced_phases
        procedure_result_invalid_motor_type procedure_result_illegal_hall_state
        procedure_result_timeout procedure_result_homing_without_endstop
        procedure_result_invalid_state procedure_result_not_calibrated
        procedure_result_not_converging :
      OdriveProcedureResult

abbrev odrive_procedure_result_value : OdriveProcedureResult → ℕ
odrive_procedure_result_value procedure_result_success = 0
odrive_procedure_result_value procedure_result_busy = 1
odrive_procedure_result_value procedure_result_cancelled = 2
odrive_procedure_result_value procedure_result_disarmed = 3
odrive_procedure_result_value procedure_result_no_response = 4
odrive_procedure_result_value procedure_result_pole_pair_cpr_mismatch = 5
odrive_procedure_result_value procedure_result_phase_resistance_out_of_range = 6
odrive_procedure_result_value procedure_result_phase_inductance_out_of_range = 7
odrive_procedure_result_value procedure_result_unbalanced_phases = 8
odrive_procedure_result_value procedure_result_invalid_motor_type = 9
odrive_procedure_result_value procedure_result_illegal_hall_state = 10
odrive_procedure_result_value procedure_result_timeout = 11
odrive_procedure_result_value procedure_result_homing_without_endstop = 12
odrive_procedure_result_value procedure_result_invalid_state = 13
odrive_procedure_result_value procedure_result_not_calibrated = 14
odrive_procedure_result_value procedure_result_not_converging = 15

instance abbrev pub odrive_procedure_result : Enumeration OdriveProcedureResult
odrive_procedure_result = record {
  value = odrive_procedure_result_value;
  enumerators =
      procedure_result_success ∷ procedure_result_busy ∷ procedure_result_cancelled
      ∷ procedure_result_disarmed ∷ procedure_result_no_response
      ∷ procedure_result_pole_pair_cpr_mismatch ∷ procedure_result_phase_resistance_out_of_range
      ∷ procedure_result_phase_inductance_out_of_range ∷ procedure_result_unbalanced_phases
      ∷ procedure_result_invalid_motor_type ∷ procedure_result_illegal_hall_state
      ∷ procedure_result_timeout ∷ procedure_result_homing_without_endstop
      ∷ procedure_result_invalid_state ∷ procedure_result_not_calibrated
      ∷ procedure_result_not_converging ∷ [];
}

pub odrive_procedure_result-of_value : (e : OdriveProcedureResult) → of_value (value e) ≡ some e
unfolding of_value
odrive_procedure_result-of_value e = ground arith

pub data OdriveMotorType : Type 0 where
  motor_type_high_current motor_type_gimbal motor_type_acim : OdriveMotorType

abbrev odrive_motor_type_value : OdriveMotorType → ℕ
odrive_motor_type_value motor_type_high_current = 0
odrive_motor_type_value motor_type_gimbal = 2
odrive_motor_type_value motor_type_acim = 3

instance abbrev pub odrive_motor_type : Enumeration OdriveMotorType
odrive_motor_type = record {
  value = odrive_motor_type_value;
  enumerators = motor_type_high_current ∷ motor_type_gimbal ∷ motor_type_acim ∷ [];
}

pub odrive_motor_type-of_value : (e : OdriveMotorType) → of_value (value e) ≡ some e
unfolding of_value
odrive_motor_type-of_value e = ground arith
