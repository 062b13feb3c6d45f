-- ===== src/Can/Tests.antt =====
-- Runs of the signal codec, and its theorems at concrete inputs.
use marine_robotics_hil_sea.Base.{
  ◌+◌, ◌*◌, ◌<◌, ◌≤◌, ◌≡◌, ◌%◌, ◌^◌, refl, arith, List, [], ◌∷◌, All, true, false,
}
use marine_robotics_hil_sea.Can.Signal.{Word, can_get_signal_raw, can_set_signal_raw}
use marine_robotics_hil_sea.Can.Layout.{Put, put, put_all, get}
use marine_robotics_hil_sea.Can.Codec.{get-set}
use marine_robotics_hil_sea.Can.Float32.{Float32, scaled_i16}
use marine_robotics_hil_sea.Can.Sequence.{put_all-reads}
use marine_robotics_hil_sea.Can.Wire.{
  CanMessage, set_input_pos, heartbeat, puts_of, cmd_id_of, struct_of, msg_length_of,
}
use marine_robotics_hil_sea.Can.Transfer.{transfer, received, transfer-received}
use marine_robotics_hil_sea.Can.Frames.{cmd_id_of-injective, frame_fits}

-- A payload of ones, also where it is indeterminate.
abbrev pub ones : Word
ones i = true

-- A toy single precision on patterns, for the conversion to `int16_t`.
instance abbrev pub toy_float : Float32
toy_float = record {
  lit = λ m k. m;
  add = λ a b. (a + b) % 2 ^ 32;
  sub = λ a b. (a + b) % 2 ^ 32;
  mul = λ a b. (a * b) % 2 ^ 32;
  div = λ a b. a;
  to_int16 = λ a. a % 2 ^ 16;
  of_int16 = λ a. a;
  to_int16_range = λ a. omega arith;
}

get-set_example :
    can_get_signal_raw 16 (can_set_signal_raw ones 16 ones 0x2a 4 12 false) 4 12 false ≡ 0x2a
get-set_example =
    get-set ones 16 ones 0x2a 4 12 false (omega arith) (omega arith) (omega arith) (omega arith)

abbrev two_puts : List Put
two_puts = put 8 7 0 8 ∷ put 16 300 8 16 ∷ []

put_all-reads_example :
    All (λ c. get c.size (put_all (λ i. ones) two_puts ones) c.start c.len ≡ c.value) two_puts
put_all-reads_example = put_all-reads (λ i. ones) two_puts ones 0 (omega arith)

abbrev moving : CanMessage
moving = set_input_pos (record { input_pos = 1_065_353_216; vel_ff = 70_000; torque_ff = 3 })

abbrev standing : CanMessage
standing = set_input_pos (record { input_pos = 0; vel_ff = 0; torque_ff = 0 })

abbrev beating : CanMessage
beating =
    heartbeat
      (record { axis_error = 0; axis_state = 8; procedure_result = 0; trajectory_done_flag = 1 })

transfer-received_example : transfer (λ i. ones) ones moving ≡ received moving
unfolding puts_of scaled_i16
transfer-received_example = transfer-received (λ i. ones) ones moving (omega arith)

cmd_id_of-injective_example : struct_of moving ≡ struct_of standing
unfolding cmd_id_of
cmd_id_of-injective_example = cmd_id_of-injective moving standing refl

frame_fits_example :
    (cmd_id_of beating < 32)
    × (msg_length_of beating ≤ 8)
    × All (λ c. c.start + c.len ≤ 8 * msg_length_of beating) (puts_of beating)
frame_fits_example = frame_fits beating
