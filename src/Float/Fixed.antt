-- ===== src/Float/Fixed.antt =====
-- A number system that meets the laws of `IsIeee`: integers in units of 10 ^ -20, with NaN. The sine is 0
-- and the cosine 1; the laws ask nothing of them.
use native.Mathlib.Nat.{pow-suc, div-le_of_le-mul}
use marine_robotics_hil_sea.Base.{
  ℕ, zero, suc, ◌<◌, ◌≤◌, ◌-◌, ◌*◌, ◌/◌, ◌^◌, ◌≡◌, Bool, true, false, arith, if◌then◌else◌,
}
use marine_robotics_hil_sea.Base.Int.{
  ℤ, pos, negsuc, ◌+ℤ◌, ◌*ℤ◌, neg_ℤ, quot, quot_ℕ, ltb_ℤ, leb_ℤ, pos_part, neg_part,
}
use marine_robotics_hil_sea.Float.Defs.{Double, IsIeee}

pub data Fixed : Type 0 where
  nan : Fixed
  fin : ℤ → Fixed

abbrev pub unit : ℕ
unit = 10 ^ 20

abbrev pub on_one : (ℤ → ℤ) → Fixed → Fixed
on_one f nan = nan
on_one f (fin a) = fin (f a)

abbrev pub on_two : (ℤ → ℤ → Fixed) → Fixed → Fixed → Fixed
on_two f (fin a) (fin b) = f a b
on_two f _ _ = nan

abbrev pub test : (ℤ → ℤ → Bool) → Fixed → Fixed → Bool
test p (fin a) (fin b) = p a b
test p _ _ = false

abbrev pub divide : ℤ → ℤ → Fixed
divide a b =
    if leb_ℤ b (pos 0)
    then (if leb_ℤ (pos 0) b then nan else fin (quot (a *ℤ pos unit) b))
    else fin (quot (a *ℤ pos unit) b)

abbrev pub round_to_int : Fixed → ℤ
round_to_int nan = pos 0
round_to_int (fin a) = quot_ℕ a unit

instance abbrev pub fixed_double : Double Fixed
fixed_double = record {
  lit = λ m k. fin (pos (m * 10 ^ (20 - k)));
  neg = on_one neg_ℤ;
  abs = on_one (λ a. pos (if ltb_ℤ a (pos 0) then neg_part a else pos_part a));
  add = on_two (λ a b. fin (a +ℤ b));
  sub = on_two (λ a b. fin (a +ℤ neg_ℤ b));
  mul = on_two (λ a b. fin (quot_ℕ (a *ℤ b) unit));
  div = on_two divide;
  lt = test ltb_ℤ;
  le = test leb_ℤ;
  eq = test (λ a b. if leb_ℤ a b then leb_ℤ b a else false);
  sin = on_one (λ a. pos 0);
  cos = on_one (λ a. pos unit);
  round_int = round_to_int;
  of_ℕ = λ n. fin (pos (n * unit));
}

pow_pos : (n : ℕ) → 0 < 10 ^ n
pow_pos zero = omega arith
pow_pos (suc n) = rw (pow-suc 10 n) (omega (arith, pow_pos n))

scaled_pos : (m k : ℕ) → 0 < suc m * 10 ^ (20 - k)
scaled_pos m k = grind (arith, pow_pos (20 - k))

lit_positive :
    (m k : ℕ) → k ≤ 20 → (fixed_double.lt (fin (pos 0)) (fin (pos (suc m * 10 ^ (20 - k))))) ≡ true
lit_positive m k h = ground (arith, scaled_pos m k)

mul_div_le : (m j : ℕ) → j ≤ 100_000_000_000_000_000_000 → m * j / 100_000_000_000_000_000_000 ≤ m
mul_div_le m j h = div-le_of_le-mul 100_000_000_000_000_000_000 (grind (arith, h))

mul_unit_fixed :
    (x k c : Fixed)
    → fixed_double.lt (fin (pos 0)) c ≡ true
    → fixed_double.lt x (fixed_double.neg c) ≡ false
    → fixed_double.lt c x ≡ false
    → fixed_double.lt k (fin (pos 0)) ≡ false
    → fixed_double.lt (fin (pos unit)) k ≡ false
    → (fixed_double.lt (fixed_double.mul x k) (fixed_double.neg c) ≡ false)
      × (fixed_double.lt c (fixed_double.mul x k) ≡ false)
mul_unit_fixed (fin (pos m)) (fin (pos j)) (fin (pos n)) a b e f g = ground (arith, mul_div_le m j)
mul_unit_fixed (fin (negsuc m)) (fin (pos j)) (fin (pos n)) a b e f g =
    ground (arith, mul_div_le (suc m) j)
mul_unit_fixed x k c a b e f g = ground arith

pub Fixed-IsIeee : IsIeee Fixed
Fixed-IsIeee = record {
  lt_irrefl = ground arith;
  lt_trans = ground arith;
  lt-neg = ground arith;
  lt-neg_zero = ground arith;
  le_of_lt = ground arith;
  not_lt_of_le = ground arith;
  le_of_not_lt = ground arith;
  le_self = ground arith;
  le-abs = ground arith;
  neg-neg_le = ground arith;
  zero_not_nan = ground arith;
  one_not_nan = ground arith;
  nan_lt = ground arith;
  lt_nan = ground arith;
  nan_le = ground arith;
  nan_add = ground arith;
  add_nan = ground arith;
  nan_sub = ground arith;
  sub_nan = ground arith;
  mul_nan = ground arith;
  neg_nan = ground arith;
  lit_pos = lit_positive;
  lit_not_nan = ground arith;
  zero_add_zero = ground arith;
  one_sub_unit = ground arith;
  mul_unit = mul_unit_fixed;
}
