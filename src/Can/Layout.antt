-- ===== src/Can/Layout.antt =====
-- Messages as sequences of signal accesses: the calls of `can_set_signal_raw` that an `encode_buf`
-- makes, one after the other, and the interface that every message struct offers.
use marine_robotics_hil_sea.Base.{ℕ, true, List, [], ◌∷◌}
use marine_robotics_hil_sea.Can.Signal.{Word, can_get_signal_raw, can_set_signal_raw}

-- One call `can_set_signal_raw<T>(buf, value, start, length, true)`, T of `size` bits.
pub record Put : Type 0 where
  pub size : ℕ
  pub value : ℕ
  pub start : ℕ
  pub len : ℕ

abbrev pub put : ℕ → ℕ → ℕ → ℕ → Put
put size value start len = record { size = size; value = value; start = start; len = len }

-- The indeterminate bits of each call, by the call's start bit.
abbrev pub Garbage : Type 0
Garbage = ℕ → Word

unfoldable pub put_all : Garbage → List Put → Word → Word
put_all g [] buf = buf
put_all g (c ∷ cs) buf =
    put_all g cs (can_set_signal_raw (g c.start) c.size buf c.value c.start c.len true)

-- `can_get_signal_raw<T>(buf, start, length, true)`
abbrev pub get : ℕ → Word → ℕ → ℕ → ℕ
get size buf start len = can_get_signal_raw size buf start len true

-- What each message struct has.
pub record Message (M : Type 0) : Type 0 where
  pub cmd_id : ℕ
  pub msg_length : ℕ
  pub encode_buf : Garbage → M → Word → Word
  pub decode_buf : Word → M
