-- ===== src/Float/Clamp.antt =====
-- `std::clamp`, and the range of its result.
use marine_robotics_hil_sea.Base.{
  ◌≡◌, Bool, true, false, arith, if◌then◌else◌, Bool-cases, inl, inr,
}
use marine_robotics_hil_sea.Float.Defs.{Double, IsIeee, ◌<?◌, ◌≤?◌, neg, abs, f0, is_nan}

module _ {F : Type 0} ⦃d : Double F⦄ where
  -- The library's `std::clamp(v, lo, hi)`: two tests, the value itself where neither passes.
  unfoldable pub clamp : F → F → F → F
  clamp v lo hi = if v <? lo then lo else if hi <? v then hi else v

  -- The idiom of the controllers: a clamp to a symmetric limit, and the test that the result is at
  -- the limit.
  unfoldable pub limited : F → F → F
  limited x limit = clamp x (neg limit) limit

  unfoldable pub at_limit : F → F → Bool
  at_limit x limit = limit ≤? abs x

  -- `x` is neither below `lo` nor above `hi`; NaN is within every range.
  abbrev pub Within : F → F → F → Type 0
  Within lo hi x = ((x <? lo) ≡ false) × ((hi <? x) ≡ false)

  -- The same, for a symmetric range.
  abbrev pub Bounded : F → F → Type 0
  Bounded limit x = Within (neg limit) limit x

  -- `x` is a number from `-limit` to `limit`; NaN is not.
  abbrev pub InRange : F → F → Type 0
  InRange limit x = ((neg limit ≤? x) ≡ true) × ((x ≤? limit) ≡ true)

module _ {F : Type 0} ⦃d : Double F⦄ (laws : IsIeee F) where
  open laws use {lt_irrefl, lt_trans, lt-neg, lt-neg_zero, nan_lt, lt_nan}

  pub clamp-Within : (v lo hi : F) → (hi <? lo) ≡ false → Within lo hi (clamp v lo hi)
  unfolding clamp
  clamp-Within v lo hi h = ground (arith, lt_irrefl lo, lt_irrefl hi)

  -- A positive limit lies above its negation.
  pub not-lt-neg_self : (c : F) → (f0 <? c) ≡ true → (c <? neg c) ≡ false
  not-lt-neg_self c h = elim (Bool-cases (c <? neg c)) [
    | inl below ↦ ground (
      arith,
      lt_trans f0 c (neg c) h below,
      lt-neg_zero (neg c),
      lt-neg f0 c,
      lt-neg c f0,
      lt_trans (neg c) (neg f0) (neg c),
      lt_irrefl (neg c),
    )
    | inr above ↦ above
  ]

  pub clamp-Bounded : (v c : F) → (f0 <? c) ≡ true → Bounded c (clamp v (neg c) c)
  clamp-Bounded v c h = clamp-Within v (neg c) c (not-lt-neg_self c h)

  -- NaN passes through.
  pub clamp_nan : (v lo hi : F) → is_nan v ≡ true → clamp v lo hi ≡ v
  unfolding clamp
  clamp_nan v lo hi h = ground (arith, nan_lt v lo h, lt_nan v hi h)

  -- What the tests `x <= 0.0` let through is positive, unless it is NaN.
  pub positive_of_not_le : (c : F) → is_nan c ≡ false → (c ≤? f0) ≡ false → (f0 <? c) ≡ true
  positive_of_not_le c real h =
      ground (arith, laws.le_of_not_lt c f0 real laws.zero_not_nan, Bool-cases (f0 <? c))

  pub InRange-of_Bounded :
      (c x : F) → is_nan c ≡ false → is_nan x ≡ false → Bounded c x → InRange c x
  InRange-of_Bounded c x hc hx b =
      ground (arith, laws.neg_nan c, laws.le_of_not_lt (neg c) x, laws.le_of_not_lt x c)

  pub clamp-InRange :
      (v c : F)
      → is_nan c ≡ false
      → (c ≤? f0) ≡ false
      → is_nan v ≡ false
      → InRange c (clamp v (neg c) c)
  unfolding clamp
  clamp-InRange v c hc pos hv =
      let b = clamp-Bounded v c (positive_of_not_le c hc pos) in
      InRange-of_Bounded c (clamp v (neg c) c) hc (ground (arith, laws.neg_nan c)) b

  -- A value within the range is left as it is.
  pub clamp_inside : (v c : F) → InRange c v → clamp v (neg c) c ≡ v
  unfolding clamp
  clamp_inside v c h = ground (arith, laws.not_lt_of_le (neg c) v h.0, laws.not_lt_of_le v c h.1)

  pub clamp_zero : (c : F) → (f0 <? c) ≡ true → clamp f0 (neg c) c ≡ f0
  unfolding clamp
  clamp_zero c h =
      ground (arith, lt-neg_zero (neg c), lt-neg f0 c, lt_trans f0 c f0 h, lt_irrefl f0)

  pub limited-Bounded : (v c : F) → (f0 <? c) ≡ true → Bounded c (limited v c)
  unfolding limited
  limited-Bounded v c h = clamp-Bounded v c h

  pub zero-Bounded : (c : F) → (f0 <? c) ≡ true → Bounded c f0
  zero-Bounded c h = rw (← clamp_zero c h) (clamp-Bounded f0 c h)
