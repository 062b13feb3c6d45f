-- ===== src/Enums/Encoders.antt =====
-- odrive_enums.h: the enumerations of the encoders, with the value of each enumerator.
use marine_robotics_hil_sea.Base.{ℕ, [], ◌∷◌, ◌≡◌, some, arith}
use marine_robotics_hil_sea.Enums.Defs.{Enumeration, value, of_value}

pub data OdriveEncoderId : Type 0 where
  encoder_id_none encoder_id_inc_encoder0 encoder_id_inc_encoder1 encoder_id_inc_encoder2
        encoder_id_sensorless_estimator encoder_id_spi_encoder0 encoder_id_spi_encoder1
        encoder_id_spi_encoder2 encoder_id_hall_encoder0 encoder_id_hall_encoder1
        encoder_id_rs485_encoder0 encoder_id_rs485_encoder1 encoder_id_rs485_encoder2
        encoder_id_onboard_encoder0 encoder_id_onboard_encoder1 :
      OdriveEncoderId

abbrev odrive_encoder_id_value : OdriveEncoderId → ℕ
odrive_encoder_id_value encoder_id_none = 0
odrive_encoder_id_value encoder_id_inc_encoder0 = 1
odrive_encoder_id_value encoder_id_inc_encoder1 = 2
odrive_encoder_id_value encoder_id_inc_encoder2 = 3
odrive_encoder_id_value encoder_id_sensorless_estimator = 4
odrive_encoder_id_value encoder_id_spi_encoder0 = 5
odrive_encoder_id_value encoder_id_spi_encoder1 = 6
odrive_encoder_id_value encoder_id_spi_encoder2 = 7
odrive_encoder_id_value encoder_id_hall_encoder0 = 8
odrive_encoder_id_value encoder_id_hall_encoder1 = 9
odrive_encoder_id_value encoder_id_rs485_encoder0 = 10
odrive_encoder_id_value encoder_id_rs485_encoder1 = 11
odrive_encoder_id_value encoder_id_rs485_encoder2 = 12
odrive_encoder_id_value encoder_id_onboard_encoder0 = 13
odrive_encoder_id_value encoder_id_onboard_encoder1 = 14

instance abbrev pub odrive_encoder_id : Enumeration OdriveEncoderId
odrive_encoder_id = record {
  value = odrive_encoder_id_value;
  enumerators =
      encoder_id_none ∷ encoder_id_inc_encoder0 ∷ encoder_id_inc_encoder1 ∷ encoder_id_inc_encoder2
      ∷ encoder_id_sensorless_estimator ∷ encoder_id_spi_encoder0 ∷ encoder_id_spi_encoder1
      ∷ encoder_id_spi_encoder2 ∷ encoder_id_hall_encoder0 ∷ encoder_id_hall_encoder1
      ∷ encoder_id_rs485_encoder0 ∷ encoder_id_rs485_encoder1 ∷ encoder_id_rs485_encoder2
      ∷ encoder_id_onboard_encoder0 ∷ encoder_id_onboard_encoder1 ∷ [];
}

pub odrive_encoder_id-of_value : (e : OdriveEncoderId) → of_value (value e) ≡ some e
unfolding of_value
odrive_encoder_id-of_value e = ground arith

pub data OdriveSpiEncoderMode : Type 0 where
  spi_encoder_mode_disabled spi_encoder_mode_rls spi_encoder_mode_ams spi_encoder_mode_cui
        spi_encoder_mode_aeat spi_encoder_mode_ma732 spi_encoder_mode_tle spi_encoder_mode_bissc :
      OdriveSpiEncoderMode

abbrev odrive_spi_encoder_mode_value : OdriveSpiEncoderMode → ℕ
odrive_spi_encoder_mode_value spi_encoder_mode_disabled = 0
odrive_spi_encoder_mode_value spi_encoder_mode_rls = 1
odrive_spi_encoder_mode_value spi_encoder_mode_ams = 2
odrive_spi_encoder_mode_value spi_encoder_mode_cui = 3
odrive_spi_encoder_mode_value spi_encoder_mode_aeat = 4
odrive_spi_encoder_mode_value spi_encoder_mode_ma732 = 5
odrive_spi_encoder_mode_value spi_encoder_mode_tle = 6
odrive_spi_encoder_mode_value spi_encoder_mode_bissc = 7

instance abbrev pub odrive_spi_encoder_mode : Enumeration OdriveSpiEncoderMode
odrive_spi_encoder_mode = record {
  value = odrive_spi_encoder_mode_value;
  enumerators =
      spi_encoder_mode_disabled ∷ spi_encoder_mode_rls ∷ spi_encoder_mode_ams ∷ spi_encoder_mode_cui
      ∷ spi_encoder_mode_aeat ∷ spi_encoder_mode_ma732 ∷ spi_encoder_mode_tle
      ∷ spi_encoder_mode_bissc ∷ [];
}

pub odrive_spi_encoder_mode-of_value : (e : OdriveSpiEncoderMode) → of_value (value e) ≡ some e
unfolding of_value
odrive_spi_encoder_mode-of_value e = ground arith

pub data OdriveRs485EncoderMode : Type 0 where
  rs485_encoder_mode_disabled rs485_encoder_mode_amt21_polling rs485_encoder_mode_amt21_event_driven
        rs485_encoder_mode_mbs rs485_encoder_mode_odrive_oa1 :
      OdriveRs485EncoderMode

abbrev odrive_rs485_encoder_mode_value : OdriveRs485EncoderMode → ℕ
odrive_rs485_encoder_mode_value rs485_encoder_mode_disabled = 0
odrive_rs485_encoder_mode_value rs485_encoder_mode_amt21_polling = 1
odrive_rs485_encoder_mode_value rs485_encoder_mode_amt21_event_driven = 2
odrive_rs485_encoder_mode_value rs485_encoder_mode_mbs = 3
odrive_rs485_encoder_mode_value rs485_encoder_mode_odrive_oa1 = 4

instance abbrev pub odrive_rs485_encoder_mode : Enumeration OdriveRs485EncoderMode
odrive_rs485_encoder_mode = record {
  value = odrive_rs485_encoder_mode_value;
  enumerators =
      rs485_encoder_mode_disabled ∷ rs485_encoder_mode_amt21_polling
      ∷ rs485_encoder_mode_amt21_event_driven ∷ rs485_encoder_mode_mbs
      ∷ rs485_encoder_mode_odrive_oa1 ∷ [];
}

pub odrive_rs485_encoder_mode-of_value : (e : OdriveRs485EncoderMode) → of_value (value e) ≡ some e
unfolding of_value
odrive_rs485_encoder_mode-of_value e = ground arith
