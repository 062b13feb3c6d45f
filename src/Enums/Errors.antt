-- ===== src/Enums/Errors.antt =====
-- odrive_enums.h: the enumerations of the error flags, with the value of each enumerator.
use marine_robotics_hil_sea.Base.{ℕ, [], ◌∷◌, ◌≡◌, some, arith}
use marine_robotics_hil_sea.Enums.Defs.{Enumeration, value, of_value}

pub data OdriveError : Type 0 where
  odrive_error_none odrive_error_initializing odrive_error_system_level odrive_error_timing_error
        odrive_error_missing_estimate odrive_error_bad_config odrive_error_drv_fault
        odrive_error_missing_input odrive_error_dc_bus_over_voltage
        odrive_error_dc_bus_under_voltage odrive_error_dc_bus_over_current
        odrive_error_dc_bus_over_regen_current odrive_error_current_limit_violation
        odrive_error_motor_over_temp odrive_error_inverter_over_temp
        odrive_error_velocity_limit_violation odrive_error_position_limit_violation
        odrive_error_watchdog_timer_expired odrive_error_estop_requested
        odrive_error_spinout_detected odrive_error_brake_resistor_disarmed
        odrive_error_thermistor_disconnected odrive_error_calibration_error :
      OdriveError

abbrev odrive_error_value : OdriveError → ℕ
odrive_error_value odrive_error_none = 0
odrive_error_value odrive_error_initializing = 1
odrive_error_value odrive_error_system_level = 2
odrive_error_value odrive_error_timing_error = 4
odrive_error_value odrive_error_missing_estimate = 8
odrive_error_value odrive_error_bad_config = 16
odrive_error_value odrive_error_drv_fault = 32
odrive_error_value odrive_error_missing_input = 64
odrive_error_value odrive_error_dc_bus_over_voltage = 256
odrive_error_value odrive_error_dc_bus_under_voltage = 512
odrive_error_value odrive_error_dc_bus_over_current = 1024
odrive_error_value odrive_error_dc_bus_over_regen_current = 2048
odrive_error_value odrive_error_current_limit_violation = 4096
odrive_error_value odrive_error_motor_over_temp = 8192
odrive_error_value odrive_error_inverter_over_temp = 16384
odrive_error_value odrive_error_velocity_limit_violation = 32768
odrive_error_value odrive_error_position_limit_violation = 65536
odrive_error_value odrive_error_watchdog_timer_expired = 16777216
odrive_error_value odrive_error_estop_requested = 33554432
odrive_error_value odrive_error_spinout_detected = 67108864
odrive_error_value odrive_error_brake_resistor_disarmed = 134217728
odrive_error_value odrive_error_thermistor_disconnected = 268435456
odrive_error_value odrive_error_calibration_error = 1073741824

instance abbrev pub odrive_error : Enumeration OdriveError
odrive_error = record {
  value = odrive_error_value;
  enumerators =
      odrive_error_none ∷ odrive_error_initializing ∷ odrive_error_system_level
      ∷ odrive_error_timing_error ∷ odrive_error_missing_estimate ∷ odrive_error_bad_config
      ∷ odrive_error_drv_fault ∷ odrive_error_missing_input ∷ odrive_error_dc_bus_over_voltage
      ∷ odrive_error_dc_bus_under_voltage ∷ odrive_error_dc_bus_over_current
      ∷ odrive_error_dc_bus_over_regen_current ∷ odrive_error_current_limit_violation
      ∷ odrive_error_motor_over_temp ∷ odrive_error_inverter_over_temp
      ∷ odrive_error_velocity_limit_violation ∷ odrive_error_position_limit_violation
      ∷ odrive_error_watchdog_timer_expired ∷ odrive_error_estop_requested
      ∷ odrive_error_spinout_detected ∷ odrive_error_brake_resistor_disarmed
      ∷ odrive_error_thermistor_disconnected ∷ odrive_error_calibration_error ∷ [];
}

pub odrive_error-of_value : (e : OdriveError) → of_value (value e) ≡ some e
unfolding of_value
odrive_error-of_value e = ground arith

pub data OdriveCanError : Type 0 where
  can_error_none can_error_duplicate_can_ids can_error_bus_off can_error_low_level
        can_error_protocol_init :
      OdriveCanError

abbrev odrive_can_error_value : OdriveCanError → ℕ
odrive_can_error_value can_error_none = 0
odrive_can_error_value can_error_duplicate_can_ids = 1
odrive_can_error_value can_error_bus_off = 2
odrive_can_error_value can_error_low_level = 4
odrive_can_error_value can_error_protocol_init = 8

instance abbrev pub odrive_can_error : Enumeration OdriveCanError
odrive_can_error = record {
  value = odrive_can_error_value;
  enumerators =
      can_error_none ∷ can_error_duplicate_can_ids ∷ can_error_bus_off ∷ can_error_low_level
      ∷ can_error_protocol_init ∷ [];
}

pub odrive_can_error-of_value : (e : OdriveCanError) → of_value (value e) ≡ some e
unfolding of_value
odrive_can_error-of_value e = ground arith
