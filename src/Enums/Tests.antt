-- ===== src/Enums/Tests.antt =====
-- The error flags at concrete values.
use marine_robotics_hil_sea.Base.{◌≡◌, refl, true, none}
use marine_robotics_hil_sea.Can.{bit_of}
use marine_robotics_hil_sea.Enums.Defs.{value, of_value}
use marine_robotics_hil_sea.Enums.Axis.{OdriveAxisState, odrive_axis_state}
use marine_robotics_hil_sea.Enums.Errors.{
  OdriveError, OdriveCanError, odrive_error_drv_fault, odrive_error, odrive_can_error,
}
use marine_robotics_hil_sea.Enums.Flags.{flags-disjoint}

-- Axis state 5 does not exist.
no_state : of_value {E = OdriveAxisState} 5 ≡ none
unfolding of_value
no_state = refl

drv_fault_bit : bit_of (value odrive_error_drv_fault) 5 ≡ true
unfolding bit_of
drv_fault_bit = refl

flags-disjoint_example :
    ((x y : OdriveError) → bit_of (value x) 5 ≡ true → bit_of (value y) 5 ≡ true → x ≡ y)
    × ((x y : OdriveCanError) → bit_of (value x) 5 ≡ true → bit_of (value y) 5 ≡ true → x ≡ y)
flags-disjoint_example = flags-disjoint 5
