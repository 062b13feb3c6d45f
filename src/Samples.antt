-- ===== src/Samples.antt =====
-- Numbers, a clock and a world for the tests: decimals, a clock that counts seconds, and a flap that
-- a torque turns.
use marine_robotics_hil_sea.Base.{ℕ, ◌*◌, ◌^◌, ◌-◌}
use marine_robotics_hil_sea.Base.Int.{pos, neg_ℤ}
use marine_robotics_hil_sea.Float.{◌⊕◌, ◌⊖◌, ◌⊗◌}
use marine_robotics_hil_sea.Chrono.{Chrono}
use marine_robotics_hil_sea.Float.Fixed.{Fixed, fin, fixed_double}
use marine_robotics_hil_sea.Ros.{Clock}

-- `m` / 10 ^ `k`, and its negation.
abbrev pub decimal : ℕ → ℕ → Fixed
decimal m k = fin (pos (m * 10 ^ (20 - k)))

abbrev pub minus : ℕ → ℕ → Fixed
minus m k = fin (neg_ℤ (pos (m * 10 ^ (20 - k))))

instance abbrev pub fixed_clock : Clock Fixed Fixed
fixed_clock = record { since = λ a b. a ⊖ b; seconds = λ a. a }

-- The angle and the speed of the flap, the setpoint of its motor and the torque accumulated on it.
pub record World : Type 0 where
  pub angle : Fixed
  pub speed : Fixed
  pub setpoint : Fixed
  pub accumulated : Fixed

instance abbrev pub toy_chrono : Chrono World Fixed
toy_chrono = record {
  motor_angle = λ w. w.angle;
  motor_angle_dt = λ w. w.speed;
  position = λ w. (w.angle, w.angle, w.angle);
  set_setpoint = λ x w. record w { setpoint = x };
  do_step_dynamics = λ dt w. record w {
    angle = w.angle ⊕ w.speed ⊗ dt;
    speed = w.speed ⊕ (w.setpoint ⊕ w.accumulated) ⊗ dt;
  };
  set_mass = λ m w. w;
  set_inertia_xx = λ x y z w. w;
  set_pos = λ x y z w. w;
  set_pos_dt = λ x y z w. w;
  set_ang_vel_parent = λ x y z w. record w { speed = y };
  set_rot_about_pivot = λ x w. record w { angle = x };
  add_accumulator = λ w. (0, w);
  empty_accumulator = λ i w. record w { accumulated = decimal 0 0 };
  accumulate_torque = λ i x y z w. record w { accumulated = w.accumulated ⊕ y };
}

abbrev pub at_rest : World
at_rest = record {
  angle = decimal 0 0;
  speed = decimal 0 0;
  setpoint = decimal 0 0;
  accumulated = decimal 0 0;
}
