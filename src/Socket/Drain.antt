-- ===== src/Socket/Drain.antt =====
-- The two loops that read the socket until it has no more: that of the event handler and, in the
-- hardware interface, that of `read`.
use marine_robotics_hil_sea.Base.{
  ℕ, zero, suc, ◌+◌, ◌<◌, ◌≡◌, refl, ap, ◌∙◌, false, Bool-cases, inl, inr, some, List, [], ◌∷◌,
  length, ltb, arith, if◌then◌else◌,
}
use marine_robotics_hil_sea.Socket.Defs.{
  Received, nothing, message, size_of_can_frame, read_nonblocking, drain,
}

module _ {M : Type 0} where
  -- What recvmsg returns from the i-th call on: the messages of a list, then nothing.
  abbrev pub Yields : (ℕ → Received M) → ℕ → List (ℕ × M) → Type 0
  Yields received i [] = received i ≡ nothing
  Yields received i ((n, frame) ∷ ms) = (received i ≡ message n frame) × Yields received (i + 1) ms

  -- The frames that are whole.
  unfoldable pub whole : List (ℕ × M) → List M
  whole [] = []
  whole ((n, frame) ∷ ms) = if ltb n size_of_can_frame then whole ms else frame ∷ whole ms

module _ {M S : Type 0} (process : M → S → S) where
  unfoldable pub process_all : List M → S → S
  process_all [] client = client
  process_all (frame ∷ frames) client = process_all frames (process frame client)

  -- One round of the loop at a message.
  drain_message :
      (received : ℕ → Received M) (n fuel i : ℕ) (frame : M) (client : S)
      → received i ≡ message n frame
      → drain process false received (suc fuel) i client
        ≡ drain process false received fuel
            (i + 1)
            (if ltb n size_of_can_frame then client else process frame client)
  unfolding drain read_nonblocking
  drain_message received n fuel i frame client e = ground arith

  process_message :
      (n : ℕ) (frame : M) (ms : List (ℕ × M)) (client : S)
      → process_all (whole ms) (if ltb n size_of_can_frame then client else process frame client)
        ≡ process_all (whole ((n, frame) ∷ ms)) client
  unfolding process_all whole
  process_message n frame ms client = elim (Bool-cases (ltb n size_of_can_frame)) [
    | inl b ↦ rw b refl
    | inr b ↦ rw b refl
  ]

  -- On a socket that yields the messages of a list and then nothing, the loop of the event handler
  -- ends after at most one round more than there are messages. Unless the socket is broken, the
  -- frame processor has then seen exactly the whole frames, in their order; short messages are
  -- skipped and do not end the loop.
  pub drain-process_all :
      (received : ℕ → Received M) (ms : List (ℕ × M)) (i fuel : ℕ) (client : S)
      → Yields received i ms
      → length ms < fuel
      → drain process false received fuel i client ≡ some (process_all (whole ms) client)
  unfolding drain read_nonblocking process_all whole
  drain-process_all received [] i zero client h l = absurd (omega (arith, l))
  drain-process_all received [] i (suc fuel) client h l = rw h refl
  drain-process_all received ((n, frame) ∷ ms) i zero client h l = absurd (omega (arith, l))
  drain-process_all received ((n, frame) ∷ ms) i (suc fuel) client (e, h) l =
      drain_message received n fuel i frame client e
      ∙ drain-process_all received ms (i + 1) fuel
          (if ltb n size_of_can_frame then client else process frame client) h (omega (arith, l))
      ∙ ap some (process_message n frame ms client)
