-- ===== src/Pid/Limits.antt =====
-- The ranges that `compute` keeps: the output, the integral, and the saturation flag.
use marine_robotics_hil_sea.Base.{
  ◌≡◌, true, false, not, ◌||◌, ◌&&◌, arith, Bool-cases, inl, inr, List, [], ◌∷◌,
}
use marine_robotics_hil_sea.Float.{
  Double, IsIeee, ◌⊗◌, ◌<?◌, ◌≤?◌, neg, f0, clamp, Within, Bounded, clamp-Within, is_nan,
}
use marine_robotics_hil_sea.Pid.Defs.{
  PidController, reset, compute, integrate, clamp_integral, error_of, at_bound,
}

-- Calls of `compute`: the setpoint, the measurement and the time step of each.
abbrev pub Inputs : Type 0 → Type 0
Inputs F = List (F × F × F)

module _ {F : Type 0} ⦃d : Double F⦄ where
  -- The limits make sense: none lies below its own lower end.
  pub record HasLimits (c : PidController F) : Type 0 where
    pub integral_range : (c.integral_limit <? neg c.integral_limit) ≡ false
    pub output_range : (c.output_max <? c.output_min) ≡ false

  -- The accumulator lies within its limit.
  abbrev pub IsWound : PidController F → Type 0
  IsWound c = Bounded c.integral_limit c.integral

  clamp_integral_idem :
      (c : PidController F) (x : F) → Bounded c.integral_limit x → clamp_integral c x ≡ x
  unfolding clamp_integral clamp
  clamp_integral_idem c x w = ground arith

  pub compute_all : PidController F → Inputs F → PidController F
  compute_all c [] = c
  compute_all c ((setpoint, measurement, dt) ∷ rest) =
      compute_all (compute c setpoint measurement dt).0 rest

  module _ (laws : IsIeee F) where
    clamp_integral-IsWound :
        (c : PidController F) (x : F) → HasLimits c → Bounded c.integral_limit (clamp_integral c x)
    unfolding clamp_integral
    clamp_integral-IsWound c x h =
        clamp-Within laws x (neg c.integral_limit) c.integral_limit h.integral_range

    integrate-IsWound :
        (c : PidController F) (error dt : F)
        → HasLimits c
        → IsWound c
        → Bounded c.integral_limit (integrate c error dt)
    unfolding integrate
    integrate-IsWound c error dt h w =
        elim (Bool-cases (not c.saturated || (error ⊗ c.integral ≤? f0))) [
          | inl free ↦ rw free (clamp_integral-IsWound c _ h)
          | inr frozen ↦ rw frozen w
        ]

    -- If no limit lies below its own lower end, the output of a call is neither below `output_min` nor
    -- above `output_max`; NaN is neither.
    pub compute-Within :
        (c : PidController F) (setpoint measurement dt : F)
        → HasLimits c
        → Within c.output_min c.output_max (compute c setpoint measurement dt).1
    unfolding compute
    compute-Within c setpoint measurement dt h =
        clamp-Within laws _ c.output_min c.output_max h.output_range

    pub compute-IsWound :
        (c : PidController F) (setpoint measurement dt : F)
        → HasLimits c
        → IsWound c
        → IsWound (compute c setpoint measurement dt).0
    unfolding compute
    compute-IsWound c setpoint measurement dt h w =
        let error = error_of c setpoint measurement in
        let held = integrate-IsWound c error dt h w in
        let again = clamp_integral-IsWound c (integrate c error dt) h in ground arith

    compute-HasLimits :
        (c : PidController F) (setpoint measurement dt : F)
        → HasLimits c
        → HasLimits (compute c setpoint measurement dt).0
    unfolding compute
    compute-HasLimits c setpoint measurement dt h = record {
      integral_range = h.integral_range;
      output_range = h.output_range;
    }

    compute_all-IsWound_from :
        (c : PidController F) (calls : Inputs F)
        → HasLimits c
        → IsWound c
        → IsWound (compute_all c calls)
    unfolding compute_all
    compute_all-IsWound_from c [] h w = w
    compute_all-IsWound_from c ((r, m, dt) ∷ rest) h w =
        compute_all-IsWound_from (compute c r m dt).0 rest (compute-HasLimits c r m dt h)
          (compute-IsWound c r m dt h w)

    -- After a reset and any sequence of calls the integral is neither below minus its limit nor above
    -- the limit, if no limit lies below its own lower end and zero lies within the integral limit.
    pub compute_all-IsWound :
        (c : PidController F) (calls : Inputs F)
        → HasLimits c
        → (c.integral_limit <? f0) ≡ false
        → (f0 <? neg c.integral_limit) ≡ false
        → IsWound (compute_all (reset c) calls)
    unfolding reset
    compute_all-IsWound c calls h above below =
        compute_all-IsWound_from (reset c) calls
          (record { integral_range = h.integral_range; output_range = h.output_range })
          (below, above)

    -- Anti-windup: a saturated controller whose integral lies within its limit, and whose error would
    -- push the integral further, keeps it exactly, whatever the new output is.
    compute-frozen :
        (c : PidController F) (setpoint measurement dt : F)
        → IsWound c
        → c.saturated ≡ true
        → (error_of c setpoint measurement ⊗ c.integral ≤? f0) ≡ false
        → (compute c setpoint measurement dt).0.integral ≡ c.integral
    unfolding compute integrate
    compute-frozen c setpoint measurement dt w sat push =
        ground (arith, clamp_integral_idem c c.integral w)

    -- The clamp after leaving saturation changes nothing, if no limit lies below its own lower end
    -- and the integral was within its limit before the call.
    pub compute-integral :
        (c : PidController F) (setpoint measurement dt : F)
        → HasLimits c
        → IsWound c
        → (compute c setpoint measurement dt).0.integral
          ≡ integrate c (error_of c setpoint measurement) dt
    unfolding compute
    compute-integral c setpoint measurement dt h w =
        let next = integrate c (error_of c setpoint measurement) dt in
        let held = integrate-IsWound c (error_of c setpoint measurement) dt h w in
        ground (arith, clamp_integral_idem c next held)

    -- The saturation flag after a call whose output and bounds are not NaN: it is clear exactly when
    -- the output lies strictly between its bounds.
    pub compute-saturated :
        (c : PidController F) (setpoint measurement dt : F)
        → is_nan c.output_min ≡ false
        → is_nan c.output_max ≡ false
        → is_nan (compute c setpoint measurement dt).1 ≡ false
        → (compute c setpoint measurement dt).0.saturated
          ≡ not (
              (c.output_min <? (compute c setpoint measurement dt).1)
              && ((compute c setpoint measurement dt).1 <? c.output_max))
    unfolding compute at_bound
    compute-saturated c setpoint measurement dt low high real =
        let out = (compute c setpoint measurement dt).1 in
        ground (
          arith,
          laws.le_of_not_lt c.output_max out high real,
          laws.le_of_not_lt out c.output_min real low,
          laws.not_lt_of_le c.output_max out,
          laws.not_lt_of_le out c.output_min,
        )
