-- ===== src/Pid/Defs.antt =====
-- `class PidController`: its fields, `reset` and the steps of `compute`, in the order of the code.
use marine_robotics_hil_sea.Base.{Bool, true, false, not, ◌&&◌, ◌||◌, if◌then◌else◌}
use marine_robotics_hil_sea.Float.{Double, ◌⊕◌, ◌⊖◌, ◌⊗◌, ◌⊘◌, ◌<?◌, ◌≤?◌, neg, abs, f0, lit, clamp}

pub record PidController (F : Type 0) : Type 0 where
  pub kp : F
  pub ki : F
  pub kd : F
  pub integral_limit : F
  pub deadband : F
  pub output_min : F
  pub output_max : F
  pub saturated : Bool
  pub integral : F
  pub prev_measurement : F
  pub first_run : Bool

module _ {F : Type 0} ⦃d : Double F⦄ where
  -- The default member initialisers.
  abbrev pub fresh : PidController F
  fresh = record {
    kp = f0;
    ki = f0;
    kd = f0;
    integral_limit = lit 1 0;
    deadband = f0;
    output_min = neg (lit 1_000_000_000 0);
    output_max = lit 1_000_000_000 0;
    saturated = false;
    integral = f0;
    prev_measurement = f0;
    first_run = true;
  }

  unfoldable pub reset : PidController F → PidController F
  reset c = record c { integral = f0; prev_measurement = f0; saturated = false; first_run = true }

  -- The error, taken as zero inside the deadband.
  unfoldable pub error_of : PidController F → F → F → F
  error_of c setpoint measurement =
      let error = setpoint ⊖ measurement in if abs error <? c.deadband then f0 else error

  -- Derivative on measurement; 0.0 on the first run.
  unfoldable pub derivative_of : PidController F → F → F → F
  derivative_of c measurement dt =
      if not c.first_run && (f0 <? dt) then neg (measurement ⊖ c.prev_measurement) ⊘ dt else f0

  -- The clamp to the symmetric limit.
  unfoldable pub clamp_integral : PidController F → F → F
  clamp_integral c x = clamp x (neg c.integral_limit) c.integral_limit

  -- Directional anti-windup: the integral after this step.
  unfoldable pub integrate : PidController F → F → F → F
  integrate c error dt =
      if not c.saturated || (error ⊗ c.integral ≤? f0)
      then clamp_integral c (c.integral ⊕ error ⊗ dt)
      else c.integral

  -- The sum of the three terms, with the new integral.
  unfoldable pub raw_output : PidController F → F → F → F → F
  raw_output c error integral derivative = c.kp ⊗ error ⊕ c.ki ⊗ integral ⊕ c.kd ⊗ derivative

  -- The inclusive saturation test on the clamped output.
  unfoldable pub at_bound : PidController F → F → Bool
  at_bound c output = (c.output_max ≤? output) || (output ≤? c.output_min)

  unfoldable pub compute : PidController F → F → F → F → PidController F × F
  compute c setpoint measurement dt =
      let error = error_of c setpoint measurement in
      let integral = integrate c error dt in
      let raw = raw_output c error integral (derivative_of c measurement dt) in
      let output = clamp raw c.output_min c.output_max in
      let saturated = at_bound c output in
      (
        record c {
          first_run = false;
          prev_measurement = measurement;
          integral = if c.saturated && not saturated then clamp_integral c integral else integral;
          saturated = saturated;
        },
        output,
      )
