-- ===== src/Mixer/Tests.antt =====
-- Runs of the mixer, and its theorems at concrete inputs.
use marine_robotics_hil_sea.Base.{◌≡◌, refl, List, [], ◌∷◌, true, none, some}
use marine_robotics_hil_sea.Float.{InRange, f0, is_nan, clamp}
use marine_robotics_hil_sea.Float.Fixed.{Fixed, nan, Fixed-IsIeee, fixed_double}
use marine_robotics_hil_sea.Mixer.Defs.{
  Mixer, Settings, Event, pid_message, load_message, parameters, timer, construct, run, step, tick,
  on_pid, on_load, effective_pid, effective_load, set_parameters, on_validate_parameters,
  on_apply_parameters, validate_one, apply_one,
}
use marine_robotics_hil_sea.Mixer.Clip.{run-tick_clipped, tick_nan}
use marine_robotics_hil_sea.Mixer.History.{tick-output_of}
use marine_robotics_hil_sea.Mixer.Replay.{output_of}
use marine_robotics_hil_sea.Mixer.Watchdog.{tick_silent}
use marine_robotics_hil_sea.Ros.{Parameter, ParameterType, validate_each, contains}
use marine_robotics_hil_sea.Samples.{decimal, fixed_clock}

-- A clip that is not positive, which the constructor replaces by 0.5.
abbrev pub settings : Settings Fixed
settings = record {
  output_rate_hz = decimal 200 0;
  hard_clip_nm = decimal 0 0;
  pid_timeout_s = decimal 2 1;
  load_timeout_s = decimal 2 1;
  enable_load = true;
}

abbrev start : Mixer Fixed Fixed
start = construct (decimal 0 0) settings

-- The clip is raised to 0.8, a clip of 0 is refused, and both inputs arrive.
abbrev clip_parameter : Fixed → Parameter Fixed
clip_parameter x = record {
  name = "hard_clip_nm";
  type = ParameterType.double_type;
  as_bool = none;
  as_double = some x;
  as_string = none;
  as_int = none;
}

abbrev events : List (Event Fixed Fixed)
events =
    parameters (clip_parameter (decimal 8 1) ∷ [])
    ∷ parameters (clip_parameter (decimal 0 0) ∷ [])
    ∷ pid_message (decimal 6 1 ∷ []) (decimal 10 1)
    ∷ load_message (decimal 7 1) (decimal 11 1)
    ∷ timer (decimal 11 1)
    ∷ []

-- The sum 1.3 is clipped to 0.8.
clipped_run : tick (run start events) (decimal 12 1) ≡ decimal 8 1
unfolding tick run step construct clamp effective_pid effective_load on_load on_pid set_parameters
    on_validate_parameters validate_each validate_one on_apply_parameters apply_one contains
clipped_run = refl

run-tick_clipped_example :
    InRange (run start events).hard_clip_nm (tick (run start events) (decimal 12 1))
unfolding run step construct effective_pid effective_load on_load on_pid set_parameters
    on_validate_parameters validate_each validate_one on_apply_parameters apply_one contains
run-tick_clipped_example =
    run-tick_clipped Fixed-IsIeee (decimal 0 0) (decimal 12 1) settings events refl refl

tick-output_of_example :
    tick (run start events) (decimal 12 1) ≡ output_of start events (decimal 12 1)
tick-output_of_example = tick-output_of (decimal 0 0) (decimal 12 1) settings events

-- Both inputs at time 1.1, with a clip of 0.8.
abbrev mixing : Fixed → Mixer Fixed Fixed
mixing tau = record {
  output_rate_hz = decimal 200 0;
  hard_clip_nm = decimal 8 1;
  pid_timeout_s = decimal 2 1;
  load_timeout_s = decimal 2 1;
  enable_load = true;
  tau_pid = tau;
  tau_hydro = decimal 3 1;
  pid_last_stamp = decimal 11 1;
  load_last_stamp = decimal 11 1;
  pid_received = true;
  load_received = true;
}

tick_nan_example : is_nan (tick (mixing nan) (decimal 12 1)) ≡ true
unfolding effective_pid
tick_nan_example = tick_nan Fixed-IsIeee (mixing nan) (decimal 12 1) refl

tick_silent_example : tick (mixing (decimal 2 1)) (decimal 20 1) ≡ f0
tick_silent_example = tick_silent Fixed-IsIeee (mixing (decimal 2 1)) (decimal 20 1) refl refl refl
