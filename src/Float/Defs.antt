-- ===== src/Float/Defs.antt =====
-- The operations on `double` that the sources call, as an interface, and its laws. A law holds of
-- every value, NaN and the infinities included, unless it says otherwise.
use marine_robotics_hil_sea.Base.{ℕ, suc, ◌≤◌, ◌≡◌, Bool, true, false, not, ◌||◌}
use marine_robotics_hil_sea.Base.Int.{ℤ}

pub record Double (F : Type 0) : Type 0 where
  -- `lit m k` is the literal of value m / 10 ^ k.
  pub lit : ℕ → ℕ → F
  pub neg : F → F
  pub abs : F → F
  pub add : F → F → F
  pub sub : F → F → F
  pub mul : F → F → F
  pub div : F → F → F
  pub lt : F → F → Bool
  pub le : F → F → Bool
  pub eq : F → F → Bool
  pub sin : F → F
  pub cos : F → F
  -- `static_cast<int>(std::llround(x))` and `static_cast<int>(std::round(x))`
  pub round_int : F → ℤ
  pub of_ℕ : ℕ → F

module _ {F : Type 0} ⦃d : Double F⦄ where
  infixl 65 ◌⊕◌ ◌⊖◌
  infixl 70 ◌⊗◌ ◌⊘◌
  infix 50 ◌<?◌ ◌≤?◌ ◌=?◌
  abbrev pub ◌⊕◌ : F → F → F
  ◌⊕◌ = d.add

  abbrev pub ◌⊖◌ : F → F → F
  ◌⊖◌ = d.sub

  abbrev pub ◌⊗◌ : F → F → F
  ◌⊗◌ = d.mul

  abbrev pub ◌⊘◌ : F → F → F
  ◌⊘◌ = d.div

  abbrev pub ◌<?◌ : F → F → Bool
  ◌<?◌ = d.lt

  abbrev pub ◌≤?◌ : F → F → Bool
  ◌≤?◌ = d.le

  abbrev pub ◌=?◌ : F → F → Bool
  ◌=?◌ = d.eq

  abbrev pub neg : F → F
  neg = d.neg

  abbrev pub abs : F → F
  abs = d.abs

  abbrev pub sin : F → F
  sin = d.sin

  abbrev pub cos : F → F
  cos = d.cos

  abbrev pub lit : ℕ → ℕ → F
  lit = d.lit

  -- 0.0 and 1.0
  abbrev pub f0 : F
  f0 = d.lit 0 0

  abbrev pub f1 : F
  f1 = d.lit 1 0

  -- NaN is the value that does not equal itself.
  abbrev pub is_nan : F → Bool
  is_nan x = not (d.eq x x)

pub record IsIeee (F : Type 0) ⦃d : Double F⦄ : Type 0 where
  pub lt_irrefl : (x : F) → (x <? x) ≡ false
  pub lt_trans : (x y z : F) → (x <? y) ≡ true → (y <? z) ≡ true → (x <? z) ≡ true
  pub lt-neg : (x y : F) → (neg x <? neg y) ≡ (y <? x)
  pub lt-neg_zero : (x : F) → (neg f0 <? x) ≡ (f0 <? x)
  pub le_of_lt : (x y : F) → (x <? y) ≡ true → (x ≤? y) ≡ true
  pub not_lt_of_le : (x y : F) → (x ≤? y) ≡ true → (y <? x) ≡ false
  pub le_of_not_lt :
      (x y : F) → is_nan x ≡ false → is_nan y ≡ false → (y <? x) ≡ false → (x ≤? y) ≡ true
  pub le_self : (x : F) → (x ≤? x) ≡ not (is_nan x)
  pub le-abs : (l x : F) → (l ≤? abs x) ≡ (l ≤? x) || (l ≤? neg x)
  pub neg-neg_le : (l : F) → (l ≤? neg (neg l)) ≡ not (is_nan l)
  pub zero_not_nan : is_nan {F = F} f0 ≡ false
  pub one_not_nan : is_nan {F = F} f1 ≡ false
  pub nan_lt : (x y : F) → is_nan x ≡ true → (x <? y) ≡ false
  pub lt_nan : (x y : F) → is_nan x ≡ true → (y <? x) ≡ false
  pub nan_le : (x y : F) → is_nan x ≡ true → (x ≤? y) ≡ false
  pub nan_add : (x y : F) → is_nan x ≡ true → is_nan (x ⊕ y) ≡ true
  pub add_nan : (x y : F) → is_nan x ≡ true → is_nan (y ⊕ x) ≡ true
  pub nan_sub : (x y : F) → is_nan x ≡ true → is_nan (x ⊖ y) ≡ true
  pub sub_nan : (x y : F) → is_nan x ≡ true → is_nan (y ⊖ x) ≡ true
  pub mul_nan : (x y : F) → is_nan x ≡ true → is_nan (y ⊗ x) ≡ true
  pub neg_nan : (x : F) → is_nan (neg x) ≡ is_nan x
  -- A literal with at most 20 decimal places that is not written 0 is positive.
  pub lit_pos : (m k : ℕ) → k ≤ 20 → (f0 <? d.lit (suc m) k) ≡ true
  pub lit_not_nan : (m k : ℕ) → is_nan (d.lit m k) ≡ false
  pub one_sub_unit :
      (k : F)
      → (k <? f0) ≡ false
      → (f1 <? k) ≡ false
      → ((f1 ⊖ k <? f0) ≡ false) × ((f1 <? f1 ⊖ k) ≡ false)
  pub mul_unit :
      (x k c : F)
      → (f0 <? c) ≡ true
      → (x <? neg c) ≡ false
      → (c <? x) ≡ false
      → (k <? f0) ≡ false
      → (f1 <? k) ≡ false
      → ((x ⊗ k <? neg c) ≡ false) × ((c <? x ⊗ k) ≡ false)
  pub zero_add_zero : f0 {F = F} ⊕ f0 ≡ f0
