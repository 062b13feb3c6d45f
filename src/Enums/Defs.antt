-- ===== src/Enums/Defs.antt =====
-- A C enumeration: the values of its enumerators, and the enumerators in the order of the source.
use marine_robotics_hil_sea.Base.{ℕ, Option, none, some, List, [], ◌∷◌, ◌==◌, if◌then◌else◌}

pub record Enumeration (E : Type 0) : Type 0 where
  pub value : E → ℕ
  pub enumerators : List E

abbrev pub value : {E : Type 0} → ⦃e : Enumeration E⦄ → E → ℕ
value ⦃e⦄ x = e.value x

module _ {E : Type 0} ⦃e : Enumeration E⦄ where
  abbrev first_with : ℕ → List E → Option E
  first_with n [] = none
  first_with n (x ∷ xs) = if value x == n then some x else first_with n xs

  -- The enumerator of a value that came over the wire.
  unfoldable pub of_value : ℕ → Option E
  of_value n = first_with n e.enumerators
