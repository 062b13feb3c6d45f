-- ===== src/Can/Bits.antt =====
-- Numbers and their bits.
use native.Mathlib.Nat.{pow-suc}
use marine_robotics_hil_sea.Base.{ℕ, zero, suc, ◌/◌, ◌^◌, ◌≤◌, ◌<◌, ◌≡◌, refl, false, arith}
use marine_robotics_hil_sea.Can.Signal.{Word, bit_of, to_ℕ}

pub to_ℕ_congr : (k : ℕ) (f g : Word) → ((i : ℕ) → i < k → f i ≡ g i) → to_ℕ k f ≡ to_ℕ k g
unfolding to_ℕ
to_ℕ_congr zero f g h = refl
to_ℕ_congr (suc k) f g h = ground (
  arith,
  h 0 (omega arith),
  to_ℕ_congr k (λ i. f (suc i)) (λ i. g (suc i)) (λ i lt. h (suc i) (omega arith)),
)

pub to_ℕ-bit_of : (k n : ℕ) → n < 2 ^ k → to_ℕ k (bit_of n) ≡ n
unfolding to_ℕ bit_of
to_ℕ-bit_of zero n h = omega arith
to_ℕ-bit_of (suc k) n h =
    let small : n / 2 < 2 ^ k = omega (arith, pow-suc 2 k) in
    ground (arith, to_ℕ-bit_of k (n / 2) small)

pub bit_of_above : (l n i : ℕ) → n < 2 ^ l → l ≤ i → bit_of n i ≡ false
unfolding bit_of
bit_of_above zero n zero h le = ground arith
bit_of_above zero n (suc i) h le = bit_of_above zero (n / 2) i (omega arith) (omega arith)
bit_of_above (suc l) n zero h le = absurd (omega arith)
bit_of_above (suc l) n (suc i) h le =
    bit_of_above l (n / 2) i (omega (arith, pow-suc 2 l)) (omega arith)
