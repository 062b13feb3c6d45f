-- ===== src/Can/Payload.antt =====
-- src/odrive_base/include/can_helpers.hpp: the signals of a message type, and encode_msg and
-- decode_msg of can_simple_messages.hpp. The message type and its `can_msg_get_payload` are the
-- firmware's (not part of the repository): a parameter.
use marine_robotics_hil_sea.Base.{ℕ, ◌+◌, ◌≤◌, ◌<◌, ◌^◌, ◌≡◌, ap, ◌∙◌, Bool}
use marine_robotics_hil_sea.Can.Signal.{Word, can_get_signal_raw, can_set_signal_raw}
use marine_robotics_hil_sea.Can.Layout.{Garbage, Message}
use marine_robotics_hil_sea.Can.Codec.{get-set}

-- `can_msg_get_payload(msg).data()`: a pointer to the payload, read and written through.
pub record MessageType (M : Type 0) : Type 0 where
  pub payload : M → Word
  pub write_payload : M → Word → M

module _ {M : Type 0} ⦃t : MessageType M⦄ where
  unfoldable pub can_get_signal : ℕ → M → ℕ → ℕ → Bool → ℕ
  can_get_signal size msg start len is_intel =
      can_get_signal_raw size (t.payload msg) start len is_intel

  unfoldable pub can_set_signal : Word → ℕ → M → ℕ → ℕ → ℕ → Bool → M
  can_set_signal garbage size msg val start len is_intel =
      t.write_payload msg (can_set_signal_raw garbage size (t.payload msg) val start len is_intel)

  module _ {S : Type 0} ⦃s : Message S⦄ where
    unfoldable pub encode_msg : Garbage → S → M → M
    encode_msg g m msg = t.write_payload msg (s.encode_buf g m (t.payload msg))

    unfoldable pub decode_msg : M → S
    decode_msg msg = s.decode_buf (t.payload msg)

  -- A signal that is written into a message is read back from it, in either byte order, if its bits
  -- fit the payload and its type and its value fits its bits, and the payload that is read is the
  -- one that is written.
  pub can_get_signal-can_set_signal :
      (g : Word) (size : ℕ) (msg : M) (val start len : ℕ) (is_intel : Bool)
      → ((msg : M) (buf : Word) → t.payload (t.write_payload msg buf) ≡ buf)
      → start + len ≤ 64
      → len ≤ size
      → size ≤ 64
      → val < 2 ^ len
      → can_get_signal size (can_set_signal g size msg val start len is_intel) start len is_intel
        ≡ val
  unfolding can_get_signal can_set_signal
  can_get_signal-can_set_signal g size msg val start len is_intel holds fits wide word small =
      ap (λ buf. can_get_signal_raw size buf start len is_intel) (holds msg _)
      ∙ get-set g size (t.payload msg) val start len is_intel fits wide word small
