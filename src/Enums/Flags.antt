-- ===== src/Enums/Flags.antt =====
-- The error flags of odrive_enums.h as bits of a mask.
use native.Mathlib.Nat.{pow-suc}
use marine_robotics_hil_sea.Base.{
  ℕ, zero, suc, ◌^◌, ◌/◌, ◌≡◌, refl, true, false, ◌⊎◌, inl, inr, arith, some,
}
use marine_robotics_hil_sea.Can.{bit_of}
use marine_robotics_hil_sea.Can.Bits.{bit_of_above}
use marine_robotics_hil_sea.Enums.Defs.{Enumeration, value, of_value}
use marine_robotics_hil_sea.Enums.Errors.{
  odrive_error, odrive_can_error, OdriveError, OdriveCanError, odrive_error_none,
  odrive_error_initializing, odrive_error_system_level, odrive_error_timing_error,
  odrive_error_missing_estimate, odrive_error_bad_config, odrive_error_drv_fault,
  odrive_error_missing_input, odrive_error_dc_bus_over_voltage, odrive_error_dc_bus_under_voltage,
  odrive_error_dc_bus_over_current, odrive_error_dc_bus_over_regen_current,
  odrive_error_current_limit_violation, odrive_error_motor_over_temp,
  odrive_error_inverter_over_temp, odrive_error_velocity_limit_violation,
  odrive_error_position_limit_violation, odrive_error_watchdog_timer_expired,
  odrive_error_estop_requested, odrive_error_spinout_detected, odrive_error_brake_resistor_disarmed,
  odrive_error_thermistor_disconnected, odrive_error_calibration_error, can_error_none,
  can_error_duplicate_can_ids, can_error_bus_off, can_error_low_level, can_error_protocol_init,
  odrive_error-of_value, odrive_can_error-of_value,
}

bit_of-pow : (k i : ℕ) → bit_of (2 ^ k) i ≡ true → i ≡ k
unfolding bit_of
bit_of-pow zero zero h = refl
bit_of-pow zero (suc i) h = absurd (ground (arith, bit_of_above 0 0 i (omega arith) (omega arith)))
bit_of-pow (suc k) zero h = absurd (ground (arith, pow-suc 2 k))
bit_of-pow (suc k) (suc i) h =
    let half : 2 ^ suc k / 2 ≡ 2 ^ k = omega (arith, pow-suc 2 k) in
    ground (arith, half, bit_of-pow k i)

bit_of_none : (i : ℕ) → bit_of 0 i ≡ false
bit_of_none i = bit_of_above 0 0 i (omega arith) (omega arith)

-- A flag is no bit or one bit.
abbrev IsFlag : ℕ → Type 0
IsFlag n = (n ≡ 0) ⊎ ((k : ℕ) × (n ≡ 2 ^ k))

IsFlag-common : (m n i : ℕ) → IsFlag m → IsFlag n → bit_of m i ≡ true → bit_of n i ≡ true → m ≡ n
IsFlag-common m n i (inl zm) fn hm hn = absurd (ground (arith, bit_of_none i))
IsFlag-common m n i (inr (k, em)) (inl zn) hm hn = absurd (ground (arith, bit_of_none i))
IsFlag-common m n i (inr (k, em)) (inr (l, en)) hm hn =
    ground (arith, bit_of-pow k i, bit_of-pow l i)

module _ {E : Type 0} ⦃e : Enumeration E⦄ where
  of_value-injective :
      (x y : E)
      → of_value (value x) ≡ some x
      → of_value (value y) ≡ some y
      → value x ≡ value y
      → x ≡ y
  of_value-injective x y hx hy h = ground arith

odrive_error-IsFlag : (e : OdriveError) → IsFlag (value e)
odrive_error-IsFlag odrive_error_none = inl refl
odrive_error-IsFlag odrive_error_initializing = inr (0, refl)
odrive_error-IsFlag odrive_error_system_level = inr (1, refl)
odrive_error-IsFlag odrive_error_timing_error = inr (2, refl)
odrive_error-IsFlag odrive_error_missing_estimate = inr (3, refl)
odrive_error-IsFlag odrive_error_bad_config = inr (4, refl)
odrive_error-IsFlag odrive_error_drv_fault = inr (5, refl)
odrive_error-IsFlag odrive_error_missing_input = inr (6, refl)
odrive_error-IsFlag odrive_error_dc_bus_over_voltage = inr (8, refl)
odrive_error-IsFlag odrive_error_dc_bus_under_voltage = inr (9, refl)
odrive_error-IsFlag odrive_error_dc_bus_over_current = inr (10, refl)
odrive_error-IsFlag odrive_error_dc_bus_over_regen_current = inr (11, refl)
odrive_error-IsFlag odrive_error_current_limit_violation = inr (12, refl)
odrive_error-IsFlag odrive_error_motor_over_temp = inr (13, refl)
odrive_error-IsFlag odrive_error_inverter_over_temp = inr (14, refl)
odrive_error-IsFlag odrive_error_velocity_limit_violation = inr (15, refl)
odrive_error-IsFlag odrive_error_position_limit_violation = inr (16, refl)
odrive_error-IsFlag odrive_error_watchdog_timer_expired = inr (24, refl)
odrive_error-IsFlag odrive_error_estop_requested = inr (25, refl)
odrive_error-IsFlag odrive_error_spinout_detected = inr (26, refl)
odrive_error-IsFlag odrive_error_brake_resistor_disarmed = inr (27, refl)
odrive_error-IsFlag odrive_error_thermistor_disconnected = inr (28, refl)
odrive_error-IsFlag odrive_error_calibration_error = inr (30, refl)

odrive_can_error-IsFlag : (e : OdriveCanError) → IsFlag (value e)
odrive_can_error-IsFlag can_error_none = inl refl
odrive_can_error-IsFlag can_error_duplicate_can_ids = inr (0, refl)
odrive_can_error-IsFlag can_error_bus_off = inr (1, refl)
odrive_can_error-IsFlag can_error_low_level = inr (2, refl)
odrive_can_error-IsFlag can_error_protocol_init = inr (3, refl)

-- No two errors of the ODrive share a bit, and no two errors of its CAN interface: a bit that is set
-- in a mask of errors tells which one it is.
pub flags-disjoint :
    (i : ℕ)
    → ((x y : OdriveError) → bit_of (value x) i ≡ true → bit_of (value y) i ≡ true → x ≡ y)
      × ((x y : OdriveCanError) → bit_of (value x) i ≡ true → bit_of (value y) i ≡ true → x ≡ y)
flags-disjoint i = (
  (λ x y hx hy.
      of_value-injective x y (odrive_error-of_value x) (odrive_error-of_value y)
        (IsFlag-common _ _ i (odrive_error-IsFlag x) (odrive_error-IsFlag y) hx hy)),
  (λ x y hx hy.
      of_value-injective x y (odrive_can_error-of_value x) (odrive_can_error-of_value y)
        (IsFlag-common _ _ i (odrive_can_error-IsFlag x) (odrive_can_error-IsFlag y) hx hy)),
)
