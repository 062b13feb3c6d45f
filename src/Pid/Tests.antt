-- ===== src/Pid/Tests.antt =====
-- Runs of the controller, and its theorems at concrete inputs.
use marine_robotics_hil_sea.Base.{◌≡◌, refl, [], ◌∷◌, true, false, not, ◌&&◌}
use marine_robotics_hil_sea.Float.{◌<?◌, Within, clamp}
use marine_robotics_hil_sea.Float.Fixed.{Fixed, Fixed-IsIeee, fixed_double}
use marine_robotics_hil_sea.Pid.Defs.{
  PidController, fresh, reset, compute, integrate, error_of, derivative_of, raw_output,
}
use marine_robotics_hil_sea.Pid.Limits.{
  HasLimits, IsWound, Inputs, compute_all, compute-Within, compute_all-IsWound, compute-integral,
  compute-saturated,
}
use marine_robotics_hil_sea.Samples.{decimal, minus}

-- A controller with an output range from -1 to 1, at its upper bound.
abbrev saturated_pid : PidController Fixed
saturated_pid = record (fresh {F = Fixed}) {
  kp = decimal 2 0;
  ki = decimal 1 0;
  output_min = minus 1 0;
  output_max = decimal 1 0;
  saturated = true;
  integral = decimal 5 1;
  first_run = false;
}

abbrev few_calls : Inputs Fixed
few_calls = (decimal 3 0, decimal 0 0, decimal 1 1) ∷ (decimal 0 0, decimal 3 0, decimal 1 0) ∷ []

limits_hold : HasLimits saturated_pid
limits_hold = record { integral_range = refl; output_range = refl }

-- A large error drives the output to its bound, and the flag is set.
full_output : (compute saturated_pid (decimal 3 0) (decimal 0 0) (decimal 1 1)).1 ≡ decimal 1 0
unfolding compute clamp raw_output error_of integrate derivative_of
full_output = refl

compute-Within_example :
    Within
      (minus 1 0)
      (decimal 1 0)
      (compute saturated_pid (decimal 3 0) (decimal 0 0) (decimal 1 1)).1
compute-Within_example =
    compute-Within Fixed-IsIeee saturated_pid (decimal 3 0) (decimal 0 0) (decimal 1 1) limits_hold

compute_all-IsWound_example : IsWound (compute_all (reset saturated_pid) few_calls)
compute_all-IsWound_example =
    compute_all-IsWound Fixed-IsIeee saturated_pid few_calls limits_hold refl refl

compute-integral_example :
    (compute saturated_pid (decimal 0 0) (decimal 3 0) (decimal 1 1)).0.integral
    ≡ integrate saturated_pid (error_of saturated_pid (decimal 0 0) (decimal 3 0)) (decimal 1 1)
compute-integral_example =
    compute-integral Fixed-IsIeee saturated_pid (decimal 0 0) (decimal 3 0) (decimal 1 1)
      limits_hold (refl, refl)

compute-saturated_example :
    (compute saturated_pid (decimal 3 0) (decimal 0 0) (decimal 1 1)).0.saturated
    ≡ not (
        (minus 1 0 <? (compute saturated_pid (decimal 3 0) (decimal 0 0) (decimal 1 1)).1)
        && ((compute saturated_pid (decimal 3 0) (decimal 0 0) (decimal 1 1)).1 <? decimal 1 0))
unfolding compute clamp raw_output error_of integrate derivative_of
compute-saturated_example =
    compute-saturated Fixed-IsIeee saturated_pid (decimal 3 0) (decimal 0 0) (decimal 1 1) refl refl
      refl
