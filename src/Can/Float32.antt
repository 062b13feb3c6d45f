-- ===== src/Can/Float32.antt =====
-- Single-precision arithmetic on bit patterns, as the scaled signals of can_helpers.hpp use it, and
-- the two templates that scale by a factor and an offset.
use marine_robotics_hil_sea.Base.{ℕ, ◌^◌, ◌<◌}

-- The operations on `float` patterns, the conversions from and to `int16_t` patterns, and literals
-- (`lit m k` is m / 10 ^ k). The conversion yields an `int16_t`; out of
-- its range C++ leaves it undefined, and the field is any `int16_t` there.
pub record Float32 : Type 0 where
  pub lit : ℕ → ℕ → ℕ
  pub add : ℕ → ℕ → ℕ
  pub sub : ℕ → ℕ → ℕ
  pub mul : ℕ → ℕ → ℕ
  pub div : ℕ → ℕ → ℕ
  pub to_int16 : ℕ → ℕ
  pub of_int16 : ℕ → ℕ
  pub to_int16_range : (x : ℕ) → to_int16 x < 2 ^ 16

module _ ⦃f : Float32⦄ where
  -- `static_cast<int16_t>((val - offset) / factor)` with the factor 0.001f and the offset 0.0f
  unfoldable pub scaled_i16 : ℕ → ℕ
  scaled_i16 val = f.to_int16 (f.div (f.sub val (f.lit 0 1)) (f.lit 1 3))

  -- `(retVal * factor) + offset`
  unfoldable pub unscaled_i16 : ℕ → ℕ
  unscaled_i16 raw = f.add (f.mul (f.of_int16 raw) (f.lit 1 3)) (f.lit 0 1)

  -- What a value becomes on the wire.
  unfoldable pub quantised_i16 : ℕ → ℕ
  quantised_i16 val = unscaled_i16 (scaled_i16 val)
