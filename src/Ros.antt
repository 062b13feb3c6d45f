-- ===== src/Ros.antt =====
-- What the nodes see of ROS 2 (rclcpp, not part of the repository): the clock, and the parameters
-- that a callback is handed. A parameter is what its accessors return; `none` is the exception that
-- an accessor throws at a parameter of another type.
use marine_robotics_hil_sea.Base.{Bool, true, false, Option, List, [], ◌∷◌, String, str_eq, ◌||◌}
use marine_robotics_hil_sea.Base.Int.{ℤ}

-- `(a - b).seconds()` and `a.seconds()` of `rclcpp::Time`.
pub record Clock (T F : Type 0) : Type 0 where
  pub since : T → T → F
  pub seconds : T → F

pub data ParameterType : Type 0 where
  bool_type double_type string_type int_type other_type : ParameterType

pub record Parameter (F : Type 0) : Type 0 where
  pub name : String
  pub type : ParameterType
  pub as_bool : Option Bool
  pub as_double : Option F
  pub as_string : Option String
  pub as_int : Option ℤ

abbrev pub is_double : ParameterType → Bool
is_double ParameterType.double_type = true
is_double _ = false

abbrev pub is_string : ParameterType → Bool
is_string ParameterType.string_type = true
is_string _ = false

-- `std::set<std::string>::count`
unfoldable pub contains : List String → String → Bool
contains [] key = false
contains (k ∷ ks) key = str_eq k key || contains ks key

-- The `SetParametersResult` of a validation callback, with its message as data, or the exception.
pub data Reason : Type 0 where
  immutable : String → Reason
  must_be_positive : String → Reason
  must_be_non_negative : String → Reason
  must_be_unit_range : String → Reason
  must_be_string : String → Reason
  must_be_control_mode : String → Reason

pub data Verdict : Type 0 where
  accepted : Verdict
  rejected : Reason → Verdict
  threw : Verdict

-- The checks of one parameter in sequence, and the loop over the parameters: the first refusal
-- returns.
infixr 30 ◌and_then◌
abbrev pub ◌and_then◌ : Verdict → Verdict → Verdict
accepted and_then v = v
rejected r and_then v = rejected r
threw and_then v = threw

unfoldable pub validate_each : {F : Type 0} → (Parameter F → Verdict) → List (Parameter F) → Verdict
validate_each check [] = accepted
validate_each check (p ∷ ps) = check p and_then validate_each check ps
