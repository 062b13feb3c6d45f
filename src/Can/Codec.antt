-- ===== src/Can/Codec.antt =====
-- What is written is read back, in both byte orders, whatever the indeterminate bits are; signals
-- that lie below a written one are left alone.
use native.Mathlib.Nat.{le_trans, pow-le-pow_right}
use marine_robotics_hil_sea.Base.{
  ℕ, ◌+◌, ◌-◌, ◌*◌, ◌/◌, ◌%◌, ◌^◌, ◌≤◌, ◌<◌, ◌≡◌, ap, Bool, true, false, ◌&&◌, arith, ◌∙◌,
}
use marine_robotics_hil_sea.Can.Signal.{
  Word, bit_of, load_word, bswap64, in_order, shift_of, mask, shift_left, can_get_signal_raw,
  val_as_bits, overwrite, can_set_signal_raw,
}
use marine_robotics_hil_sea.Can.Bits.{to_ℕ_congr, to_ℕ-bit_of, bit_of_above}

bswap64-bswap64 : (w : Word) (i : ℕ) → i < 64 → bswap64 (bswap64 w) i ≡ w i
unfolding bswap64
bswap64-bswap64 w i h =
    let back : 8 * (7 - (8 * (7 - i / 8) + i % 8) / 8) + (8 * (7 - i / 8) + i % 8) % 8 ≡ i =
      omega arith in
    ground (arith, ap w back)

bswap64_congr :
    (f g : Word) → ((j : ℕ) → j < 64 → f j ≡ g j) → (i : ℕ) → i < 64 → bswap64 f i ≡ bswap64 g i
unfolding bswap64
bswap64_congr f g h i low = ground (arith, h (8 * (7 - i / 8) + i % 8) (omega arith))

-- The word that is read after a write is the word that was written.
load-set :
    (g : Word) (size : ℕ) (buf : Word) (val start len : ℕ) (is_intel : Bool) (i : ℕ)
    → i < 64
    → in_order is_intel (load_word (can_set_signal_raw g size buf val start len is_intel)) i
      ≡ overwrite
          (in_order is_intel (load_word buf))
          (val_as_bits g size val)
          (shift_of start len is_intel)
          len
          i
unfolding can_set_signal_raw load_word
load-set g size buf val start len true i h = ground arith
load-set g size buf val start len false i h =
    let word = bswap64 (load_word buf) in
    let written = overwrite word (val_as_bits g size val) (shift_of start len false) len in
    bswap64_congr (load_word (can_set_signal_raw g size buf val start len false)) (bswap64 written)
      (λ j low. ground arith) i h
    ∙ bswap64-bswap64 written i h

shift_of-le :
    (start len : ℕ) (is_intel : Bool) → start + len ≤ 64 → shift_of start len is_intel + len ≤ 64
unfolding shift_of
shift_of-le start len true h = omega arith
shift_of-le start len false h = omega arith

overwrite_self :
    (word g : Word) (size val shift len i : ℕ)
    → shift + len ≤ 64
    → len ≤ size
    → val < 2 ^ len
    → (overwrite word (val_as_bits g size val) shift len (i + shift) && mask len i) ≡ bit_of val i
unfolding overwrite val_as_bits mask shift_left
overwrite_self word g size val shift len i fits wide small =
    ground (arith, bit_of_above len val i small)

overwrite-below :
    (word bits : Word) (shift len i : ℕ) → i < shift → overwrite word bits shift len i ≡ word i
unfolding overwrite shift_left
overwrite-below word bits shift len i h = ground arith

-- Under the mask only the bits below the length matter.
masked_congr : (a b : Bool) (len i : ℕ) → (i < len → a ≡ b) → (a && mask len i) ≡ (b && mask len i)
unfolding mask
masked_congr a b len i h = ground arith

-- A signal that is written is read back, whatever the payload held and the indeterminate bits are,
-- in either byte order, if its bits fit the payload and its type and its value fits its bits.
pub get-set :
    (g : Word) (size : ℕ) (buf : Word) (val start len : ℕ) (is_intel : Bool)
    → start + len ≤ 64
    → len ≤ size
    → size ≤ 64
    → val < 2 ^ len
    → can_get_signal_raw size
        (can_set_signal_raw g size buf val start len is_intel)
        start
        len
        is_intel
      ≡ val
unfolding can_get_signal_raw
get-set g size buf val start len is_intel fits wide word small =
    to_ℕ_congr size _ (bit_of val) (λ i low.
      let p = i + shift_of start len is_intel in
      let room = shift_of-le start len is_intel fits in
      masked_congr _ _ len i (λ inside. load-set g size buf val start len is_intel p (omega arith))
      ∙ overwrite_self _ g size val (shift_of start len is_intel) len i room wide small)
    ∙ to_ℕ-bit_of size val (le_trans small (pow-le-pow_right (omega arith) wide))

below_shift :
    (start len start' len' i : ℕ)
    → i < len'
    → start ≤ 64
    → start' + len' ≤ start
    → (i + shift_of start' len' true < shift_of start len true) × (shift_of start len true ≤ 64)
unfolding shift_of
below_shift start len start' len' i inside fits below = ground arith

-- A little-endian signal that lies below the one that is written, both within the payload, keeps its
-- value, whatever the indeterminate bits are.
pub get-set_below :
    (g : Word) (size size' : ℕ) (buf : Word) (val start len start' len' : ℕ)
    → start + len ≤ 64
    → start' + len' ≤ start
    → can_get_signal_raw size' (can_set_signal_raw g size buf val start len true) start' len' true
      ≡ can_get_signal_raw size' buf start' len' true
unfolding can_get_signal_raw
get-set_below g size size' buf val start len start' len' fits below = to_ℕ_congr size' _ _ (λ i low.
    masked_congr _ _ len' i (λ inside.
      let p = i + shift_of start' len' true in
      let at = below_shift start len start' len' i inside fits' below in
      load-set g size buf val start len true p (omega arith)
      ∙ overwrite-below _ _ (shift_of start len true) len p at.0))
  where
    fits' : start ≤ 64
    fits' = omega arith
