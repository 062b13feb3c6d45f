-- ===== src/Enums/Device.antt =====
-- odrive_enums.h: the enumerations of the pins, the protocols and the components, with the value of each enumerator.
use marine_robotics_hil_sea.Base.{ℕ, [], ◌∷◌, ◌≡◌, some, arith}
use marine_robotics_hil_sea.Enums.Defs.{Enumeration, value, of_value}

pub data OdriveGpioMode : Type 0 where
  gpio_mode_digital gpio_mode_digital_pull_up gpio_mode_digital_pull_down gpio_mode_analog_in
        gpio_mode_uart_a gpio_mode_uart_b gpio_mode_uart_c gpio_mode_can_a gpio_mode_i2c_a
        gpio_mode_spi_a gpio_mode_pwm gpio_mode_enc0 gpio_mode_enc1 gpio_mode_enc2
        gpio_mode_mech_brake gpio_mode_status gpio_mode_brake_res gpio_mode_auto :
      OdriveGpioMode

abbrev odrive_gpio_mode_value : OdriveGpioMode → ℕ
odrive_gpio_mode_value gpio_mode_digital = 0
odrive_gpio_mode_value gpio_mode_digital_pull_up = 1
odrive_gpio_mode_value gpio_mode_digital_pull_down = 2
odrive_gpio_mode_value gpio_mode_analog_in = 3
odrive_gpio_mode_value gpio_mode_uart_a = 4
odrive_gpio_mode_value gpio_mode_uart_b = 5
odrive_gpio_mode_value gpio_mode_uart_c = 6
odrive_gpio_mode_value gpio_mode_can_a = 7
odrive_gpio_mode_value gpio_mode_i2c_a = 8
odrive_gpio_mode_value gpio_mode_spi_a = 9
odrive_gpio_mode_value gpio_mode_pwm = 10
odrive_gpio_mode_value gpio_mode_enc0 = 11
odrive_gpio_mode_value gpio_mode_enc1 = 12
odrive_gpio_mode_value gpio_mode_enc2 = 13
odrive_gpio_mode_value gpio_mode_mech_brake = 14
odrive_gpio_mode_value gpio_mode_status = 15
odrive_gpio_mode_value gpio_mode_brake_res = 16
odrive_gpio_mode_value gpio_mode_auto = 17

instance abbrev pub odrive_gpio_mode : Enumeration OdriveGpioMode
odrive_gpio_mode = record {
  value = odrive_gpio_mode_value;
  enumerators =
      gpio_mode_digital ∷ gpio_mode_digital_pull_up ∷ gpio_mode_digital_pull_down
      ∷ gpio_mode_analog_in ∷ gpio_mode_uart_a ∷ gpio_mode_uart_b ∷ gpio_mode_uart_c
      ∷ gpio_mode_can_a ∷ gpio_mode_i2c_a ∷ gpio_mode_spi_a ∷ gpio_mode_pwm ∷ gpio_mode_enc0
      ∷ gpio_mode_enc1 ∷ gpio_mode_enc2 ∷ gpio_mode_mech_brake ∷ gpio_mode_status
      ∷ gpio_mode_brake_res ∷ gpio_mode_auto ∷ [];
}

pub odrive_gpio_mode-of_value : (e : OdriveGpioMode) → of_value (value e) ≡ some e
unfolding of_value
odrive_gpio_mode-of_value e = ground arith

pub data OdriveStreamProtocolType : Type 0 where
  stream_protocol_type_fibre stream_protocol_type_ascii stream_protocol_type_stdout
        stream_protocol_type_ascii_and_stdout stream_protocol_type_other :
      OdriveStreamProtocolType

abbrev odrive_stream_protocol_type_value : OdriveStreamProtocolType → ℕ
odrive_stream_protocol_type_value stream_protocol_type_fibre = 0
odrive_stream_protocol_type_value stream_protocol_type_ascii = 1
odrive_stream_protocol_type_value stream_protocol_type_stdout = 2
odrive_stream_protocol_type_value stream_protocol_type_ascii_and_stdout = 3
odrive_stream_protocol_type_value stream_protocol_type_other = 4

instance abbrev pub odrive_stream_protocol_type : Enumeration OdriveStreamProtocolType
odrive_stream_protocol_type = record {
  value = odrive_stream_protocol_type_value;
  enumerators =
      stream_protocol_type_fibre ∷ stream_protocol_type_ascii ∷ stream_protocol_type_stdout
      ∷ stream_protocol_type_ascii_and_stdout ∷ stream_protocol_type_other ∷ [];
}

pub odrive_stream_protocol_type-of_value :
    (e : OdriveStreamProtocolType) → of_value (value e) ≡ some e
unfolding of_value
odrive_stream_protocol_type-of_value e = ground arith

pub data OdriveProtocol : Type 0 where
  protocol_none protocol_simple : OdriveProtocol

abbrev odrive_protocol_value : OdriveProtocol → ℕ
odrive_protocol_value protocol_none = 0
odrive_protocol_value protocol_simple = 1

instance abbrev pub odrive_protocol : Enumeration OdriveProtocol
odrive_protocol = record {
  value = odrive_protocol_value;
  enumerators = protocol_none ∷ protocol_simple ∷ [];
}

pub odrive_protocol-of_value : (e : OdriveProtocol) → of_value (value e) ≡ some e
unfolding of_value
odrive_protocol-of_value e = ground arith

pub data OdriveComponentStatus : Type 0 where
  component_status_nominal component_status_no_response component_status_invalid_response_length
        component_status_parity_mismatch component_status_illegal_hall_state
        component_status_polarity_not_calibrated component_status_phases_not_calibrated
        component_status_numerical_error component_status_missing_input
        component_status_relative_mode component_status_unconfigured component_status_overspeed
        component_status_index_not_found component_status_bad_config component_status_not_enabled
        component_status_spinout_detected :
      OdriveComponentStatus

abbrev odrive_component_status_value : OdriveComponentStatus → ℕ
odrive_component_status_value component_status_nominal = 0
odrive_component_status_value component_status_no_response = 1
odrive_component_status_value component_status_invalid_response_length = 2
odrive_component_status_value component_status_parity_mismatch = 3
odrive_component_status_value component_status_illegal_hall_state = 4
odrive_component_status_value component_status_polarity_not_calibrated = 5
odrive_component_status_value component_status_phases_not_calibrated = 6
odrive_component_status_value component_status_numerical_error = 7
odrive_component_status_value component_status_missing_input = 8
odrive_component_status_value component_status_relative_mode = 9
odrive_component_status_value component_status_unconfigured = 10
odrive_component_status_value component_status_overspeed = 11
odrive_component_status_value component_status_index_not_found = 12
odrive_component_status_value component_status_bad_config = 13
odrive_component_status_value component_status_not_enabled = 14
odrive_component_status_value component_status_spinout_detected = 15

instance abbrev pub odrive_component_status : Enumeration OdriveComponentStatus
odrive_component_status = record {
  value = odrive_component_status_value;
  enumerators =
      component_status_nominal ∷ component_status_no_response
      ∷ component_status_invalid_response_length ∷ component_status_parity_mismatch
      ∷ component_status_illegal_hall_state ∷ component_status_polarity_not_calibrated
      ∷ component_status_phases_not_calibrated ∷ component_status_numerical_error
      ∷ component_status_missing_input ∷ component_status_relative_mode
      ∷ component_status_unconfigured ∷ component_status_overspeed
      ∷ component_status_index_not_found ∷ component_status_bad_config
      ∷ component_status_not_enabled ∷ component_status_spinout_detected ∷ [];
}

pub odrive_component_status-of_value : (e : OdriveComponentStatus) → of_value (value e) ≡ some e
unfolding of_value
odrive_component_status-of_value e = ground arith
