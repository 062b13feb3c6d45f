-- ===== src/Can/Signal.antt =====
-- src/odrive_base/include/can_helpers.hpp: reading and writing a signal of a CAN payload. A payload
-- is the memory from its first byte on, as bits: bit 8 j + k is bit k of byte j. The host is
-- little-endian, so the same numbering is that of the `uint64_t` over its first eight bytes. The
-- signal's type T is its width in bits, and its value the number of its bit pattern.
use marine_robotics_hil_sea.Base.{
  ℕ, zero, suc, ◌+◌, ◌-◌, ◌*◌, ◌/◌, ◌%◌, ◌^◌, Bool, false, not, ◌&&◌, ◌||◌, ltb, leb, ◌==◌,
  if◌then◌else◌,
}

abbrev pub Word : Type 0
Word = ℕ → Bool

-- Bit `i` of a number, and the number of the lowest `k` bits.
unfoldable pub bit_of : ℕ → ℕ → Bool
bit_of n zero = n % 2 == 1
bit_of n (suc i) = bit_of (n / 2) i

unfoldable pub to_ℕ : ℕ → Word → ℕ
to_ℕ zero w = 0
to_ℕ (suc k) w = (if w 0 then 1 else 0) + 2 * to_ℕ k (λ i. w (suc i))

-- `memcpy` of the payload into the union, seen as its `uint64_t`.
unfoldable pub load_word : Word → Word
load_word buf i = if ltb i 64 then buf i else false

-- `__builtin_bswap64`
unfoldable pub bswap64 : Word → Word
bswap64 w i = if ltb i 64 then w (8 * (7 - i / 8) + i % 8) else false

abbrev pub in_order : Bool → Word → Word
in_order is_intel w = if is_intel then w else bswap64 w

-- `const uint8_t shift = isIntel ? startBit : (64 - startBit) - length`, in `size_t` arithmetic.
unfoldable pub shift_of : ℕ → ℕ → Bool → ℕ
shift_of start len is_intel = if is_intel then start % 256 else (2 ^ 64 + 64 - start - len) % 256

-- `length < 64 ? (1ULL << length) - 1ULL : -1ULL`
unfoldable pub mask : ℕ → Word
mask len i = ltb i 64 && ltb i len

unfoldable pub shift_left : Word → ℕ → Word
shift_left w s i = ltb i 64 && (leb s i && w (i - s))

unfoldable pub can_get_signal_raw : ℕ → Word → ℕ → ℕ → Bool → ℕ
can_get_signal_raw size buf start len is_intel =
    let value = in_order is_intel (load_word buf) in
    let shift = shift_of start len is_intel in to_ℕ size (λ i. value (i + shift) && mask len i)

-- The union of `valAsBits` and `tempVal`: the bytes above the value's type are indeterminate.
unfoldable pub val_as_bits : Word → ℕ → ℕ → Word
val_as_bits garbage size val i = if ltb i size then bit_of val i else ltb i 64 && garbage i

-- `data &= ~(mask << shift); data |= valAsBits << shift;`
unfoldable pub overwrite : Word → Word → ℕ → ℕ → Word
overwrite word bits shift len i =
    (word i && not (shift_left (mask len) shift i)) || shift_left bits shift i

unfoldable pub can_set_signal_raw : Word → ℕ → Word → ℕ → ℕ → ℕ → Bool → Word
can_set_signal_raw garbage size buf val start len is_intel i =
    let word = in_order is_intel (load_word buf) in
    let written = overwrite word (val_as_bits garbage size val) (shift_of start len is_intel) len in
    if ltb i 64 then in_order is_intel written i else buf i
