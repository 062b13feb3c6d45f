-- ===== src/Pid/History.antt =====
-- What a call of `compute` depends on: resets, the first run, and the setpoint.
use marine_robotics_hil_sea.Base.{◌≡◌, true}
use marine_robotics_hil_sea.Float.{Double}
use marine_robotics_hil_sea.Pid.Defs.{
  PidController, compute, integrate, error_of, derivative_of, raw_output, clamp_integral, at_bound,
}

module _ {F : Type 0} ⦃d : Double F⦄ where
  -- On the first run after a reset no earlier measurement enters: neither the output nor the new
  -- state depends on the one that is stored.
  compute-first_run :
      (c : PidController F) (m setpoint measurement dt : F)
      → c.first_run ≡ true
      → compute (record c { prev_measurement = m }) setpoint measurement dt
        ≡ compute c setpoint measurement dt
  unfolding compute error_of integrate derivative_of raw_output clamp_integral at_bound
  compute-first_run c m setpoint measurement dt h = rw h
