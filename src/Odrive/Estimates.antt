-- ===== src/Odrive/Estimates.antt =====
-- The frames that the drives send, and the torque setpoints that they receive.
use marine_robotics_hil_sea.Base.{
  Bool-cases, inl, inr, ℕ, ◌/◌, ◌%◌, ◌^◌, ◌<◌, ◌≡◌, refl, ap, ap₂, ◌∙◌, true, false, arith, List,
  [], ◌∷◌, map, All, ◌==◌, if◌then◌else◌,
}
use marine_robotics_hil_sea.Can.{Message}
use marine_robotics_hil_sea.Can.Float32.{Float32}
use marine_robotics_hil_sea.Can.Sequence.{Fits}
use marine_robotics_hil_sea.Can.Messages.{
  GetEncoderEstimatesMsg, get_encoder_estimates_msg, get_encoder_estimates_puts,
  get_encoder_estimates_roundtrip, GetTorquesMsg, get_torques_msg, get_torques_puts,
  get_torques_roundtrip, GetPowersMsg, get_powers_msg, get_powers_puts, get_powers_roundtrip,
  SetInputTorqueMsg, set_input_torque_msg, set_input_torque_roundtrip,
}
use marine_robotics_hil_sea.Float.{Double, ◌⊗◌}
use marine_robotics_hil_sea.Odrive.Motor.{
  Frame, Narrow, Axis, Junk, can_id_of, send, receive, decode_then, on_encoder_estimates,
  on_torques, on_powers,
}
use marine_robotics_hil_sea.Odrive.Defs.{Interface, on_can_msg, read, write_axis}
use marine_robotics_hil_sea.Odrive.Modes.{can_id_of-cmd, can_id_of-node}

-- What a drive reads of a torque frame: the node id, the command id and the torque.
abbrev pub torque_request : Frame → ℕ × ℕ × SetInputTorqueMsg
torque_request frame =
    (frame.can_id / 2 ^ 5, frame.can_id % 2 ^ 5, set_input_torque_msg.decode_buf frame.payload)

module _ {F : Type 0} ⦃d : Double F⦄ ⦃n : Narrow F⦄ where
  -- The axes after `change` of those with the node id.
  abbrev pub at_node : ℕ → (Axis F → Axis F) → List (Axis F) → List (Axis F)
  at_node node_id change = map (λ a. if node_id == a.node_id then change a else a)

  -- An axis with the values of the three messages.
  abbrev pub estimated : GetEncoderEstimatesMsg → GetTorquesMsg → GetPowersMsg → Axis F → Axis F
  estimated e t p a = record a {
    pos_estimate = n.of_float e.pos_estimate ⊗ n.two_pi;
    vel_estimate = n.of_float e.vel_estimate ⊗ n.two_pi;
    torque_target = n.of_float t.torque_target;
    torque_estimate = n.of_float t.torque_estimate;
    electrical_power = n.of_float p.electrical_power;
    mechanical_power = n.of_float p.mechanical_power;
  }

  on_can_msg-at_node :
      (frame : Frame) (node_id : ℕ) (change : Axis F → Axis F) (axes : List (Axis F))
      → frame.can_id / 2 ^ 5 ≡ node_id
      → ((a : Axis F) → receive frame a ≡ change a)
      → on_can_msg frame axes ≡ at_node node_id change axes
  unfolding on_can_msg
  on_can_msg-at_node frame node_id change [] node same = refl
  on_can_msg-at_node frame node_id change (a ∷ others) node same =
      ap₂ (◌∷◌) (ap₂ (λ k b. if k == a.node_id then b else a) node (same a))
        (on_can_msg-at_node frame node_id change others node same)

  receive-encoder :
      (junk : Junk) (node_id : ℕ) (m : GetEncoderEstimatesMsg) (a : Axis F)
      → Fits (get_encoder_estimates_puts m)
      → receive (send junk node_id m) a ≡ on_encoder_estimates m a
  unfolding receive decode_then send
  receive-encoder junk node_id m a fits =
      let id = can_id_of node_id 0x009 in
      rw (can_id_of-cmd node_id 0x009 (omega arith)) (
        ap (λ x. on_encoder_estimates x a)
          (get_encoder_estimates_roundtrip (junk id).0 m (junk id).1 fits))

  receive-torques :
      (junk : Junk) (node_id : ℕ) (m : GetTorquesMsg) (a : Axis F)
      → Fits (get_torques_puts m)
      → receive (send junk node_id m) a ≡ on_torques m a
  unfolding receive decode_then send
  receive-torques junk node_id m a fits =
      let id = can_id_of node_id 0x01c in
      rw (can_id_of-cmd node_id 0x01c (omega arith))
        (ap (λ x. on_torques x a) (get_torques_roundtrip (junk id).0 m (junk id).1 fits))

  receive-powers :
      (junk : Junk) (node_id : ℕ) (m : GetPowersMsg) (a : Axis F)
      → Fits (get_powers_puts m)
      → receive (send junk node_id m) a ≡ on_powers m a
  unfolding receive decode_then send
  receive-powers junk node_id m a fits =
      let id = can_id_of node_id 0x01d in
      rw (can_id_of-cmd node_id 0x01d (omega arith))
        (ap (λ x. on_powers x a) (get_powers_roundtrip (junk id).0 m (junk id).1 fits))

  -- Two changes of the axes of one node, of which the first keeps the node ids.
  at_node_fuse :
      (node_id : ℕ) (f g : Axis F → Axis F) (axes : List (Axis F))
      → ((a : Axis F) → (g a).node_id ≡ a.node_id)
      → at_node node_id f (at_node node_id g axes) ≡ at_node node_id (λ a. f (g a)) axes
  at_node_fuse node_id f g [] keeps = refl
  at_node_fuse node_id f g (a ∷ others) keeps =
      let rest = at_node_fuse node_id f g others keeps in
      elim (Bool-cases (node_id == a.node_id)) [
        | inl here ↦
            let there : (node_id == (g a).node_id) ≡ true = ap (◌==◌ node_id) (keeps a) ∙ here in
            rw (here, there) (ap (◌∷◌ (f (g a))) rest)
        | inr other ↦ rw (other, other) (ap (◌∷◌ a) rest)
      ]

  at_node-on_can_msg :
      {M : Type 0} ⦃msg : Message M⦄
      → (junk : Junk) (node_id : ℕ) (m : M) (change : Axis F → Axis F) (axes : List (Axis F))
      → node_id < 2 ^ 27
      → msg.cmd_id < 2 ^ 5
      → ((a : Axis F) → receive (send junk node_id m) a ≡ change a)
      → on_can_msg (send junk node_id m) axes ≡ at_node node_id change axes
  unfolding send
  at_node-on_can_msg ⦃msg⦄ junk node_id m change axes fits small same =
      on_can_msg-at_node (send junk node_id m) node_id change axes
        (can_id_of-node node_id msg.cmd_id fits small) same

  -- A drive that sends its encoder estimates, its torques and its powers, in this order, sets the six
  -- estimates of exactly the axes with its node id, to the values that it sent, the position and the
  -- velocity in radians for turns, whatever the frames held before; no other axis changes. The node id
  -- has at most 27 bits, and the values are patterns of `float`.
  pub read-estimates :
      (junk : Junk) (node_id : ℕ) (e : GetEncoderEstimatesMsg) (t : GetTorquesMsg)
      (p : GetPowersMsg) (s : Interface F)
      → node_id < 2 ^ 27
      → Fits (get_encoder_estimates_puts e)
      → Fits (get_torques_puts t)
      → Fits (get_powers_puts p)
      → read (send junk node_id e ∷ send junk node_id t ∷ send junk node_id p ∷ []) s
        ≡ record s { axes = at_node node_id (λ a. estimated e t p a) s.axes }
  unfolding read on_encoder_estimates on_torques on_powers
  read-estimates junk node_id e t p s fits he ht hp =
      let as_e =
        at_node-on_can_msg junk node_id e (on_encoder_estimates e) s.axes fits (omega arith)
          (λ a. receive-encoder junk node_id e a he) in
      let axes_e = at_node node_id (on_encoder_estimates e) s.axes in
      let as_t =
        at_node-on_can_msg junk node_id t (on_torques t) axes_e fits (omega arith)
          (λ a. receive-torques junk node_id t a ht) in
      let as_p =
        at_node-on_can_msg junk node_id p (on_powers p) (at_node node_id (on_torques t) axes_e) fits
          (omega arith) (λ a. receive-powers junk node_id p a hp) in
      ap (λ axes. record s { axes = axes })
        (ap (λ axes. on_can_msg (send junk node_id p) (on_can_msg (send junk node_id t) axes)) as_e
          ∙ ap (on_can_msg (send junk node_id p)) as_t
          ∙ as_p
          ∙ ap (at_node node_id (on_powers p))
              (at_node_fuse node_id (on_torques t) (on_encoder_estimates e) s.axes (λ a. refl))
          ∙ at_node_fuse node_id (on_powers p) (λ a. on_torques t (on_encoder_estimates e a)) s.axes
              (λ a. refl))

  receive-short : (frame : Frame) (a : Axis F) → frame.can_dlc < 8 → receive frame a ≡ a
  unfolding receive decode_then
  receive-short frame a h = ground arith

  on_can_msg-short :
      (frame : Frame) (axes : List (Axis F)) → frame.can_dlc < 8 → on_can_msg frame axes ≡ axes
  unfolding on_can_msg
  on_can_msg-short frame [] h = refl
  on_can_msg-short frame (a ∷ others) h =
      ground (arith, receive-short frame a h, on_can_msg-short frame others h)

  -- Frames with fewer than eight bytes change nothing, whatever their ids and bits are.
  pub read-short :
      (frames : List Frame) (s : Interface F)
      → All (λ frame. frame.can_dlc < 8) frames
      → read frames s ≡ s
  unfolding read
  read-short [] s h = refl
  read-short (frame ∷ frames) s (h, hs) =
      ground (arith, on_can_msg-short frame s.axes h, read-short frames s hs)

  -- For an axis with the effort interface alone `write` sends one frame, and the drive reads the
  -- axis's node id, the id of the torque command, and the torque setpoint as a `float`, whatever the
  -- frame held before; the node id has at most 27 bits.
  pub write_axis-torque :
      ⦃f : Float32⦄
      → (junk : Junk) (a : Axis F) → a.node_id < 2 ^ 27
      → a.pos_input_enabled ≡ false
      → a.vel_input_enabled ≡ false
      → a.torque_input_enabled ≡ true
      → map torque_request (write_axis junk a)
        ≡ (
          a.node_id,
          set_input_torque_msg.cmd_id,
          record { input_torque = n.to_float a.torque_setpoint },
        )
          ∷ []
  unfolding write_axis send
  write_axis-torque junk a fits pos vel torque =
      let id = can_id_of a.node_id 0x00e in
      let m : SetInputTorqueMsg = record { input_torque = n.to_float a.torque_setpoint } in
      ground (
        arith,
        can_id_of-cmd a.node_id 0x00e (omega arith),
        can_id_of-node a.node_id 0x00e fits (omega arith),
        set_input_torque_roundtrip (junk id).0 m (junk id).1
            (n.to_float_range a.torque_setpoint, tt),
      )
