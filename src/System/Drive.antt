-- ===== src/System/Drive.antt =====
-- The torque that the drive is asked for.
use marine_robotics_hil_sea.Base.{
  ℕ, zero, suc, ◌^◌, ◌<◌, ◌≡◌, refl, sym, ◌∙◌, Bool, true, false, none, some, List, [], ◌∷◌, map,
  All, All-append, get_elem?, String, arith,
}
use mathlib.Core.Path.{subst}
use marine_robotics_hil_sea.Can.Messages.{set_input_torque_msg}
use marine_robotics_hil_sea.Can.Float32.{Float32}
use marine_robotics_hil_sea.Float.{
  Double, IsIeee, ◌<?◌, f0, is_nan, Bounded, clamp-Bounded, zero-Bounded, positive_of_not_le,
}
use marine_robotics_hil_sea.Mixer
use marine_robotics_hil_sea.Mixer.{
  Mixer, Settings, pid_message, load_message, enable_load_request, parameters, timer,
}
use marine_robotics_hil_sea.Mixer.Clip.{construct-IsValid}
use marine_robotics_hil_sea.Odrive.{
  Frame, Axis, Narrow, Junk, receive, decode_then, on_encoder_estimates, on_torques, on_powers,
  new_axis, set_input, set_inputs, switch_axis, write_axis,
}
use marine_robotics_hil_sea.Odrive.Estimates.{torque_request, write_axis-torque}
use marine_robotics_hil_sea.Ros.{Clock}
use marine_robotics_hil_sea.System.Relation.{
  System, Step, mixes, delivers, switches, receives, init, Reach, at_start, later,
}

module _ {F : Type 0} where
  pub set_inputs-torque_setpoint :
      (on : Bool) (keys : List String) (a : Axis F) (named : Bool)
      → (set_inputs on keys (a, named)).0.torque_setpoint ≡ a.torque_setpoint
  unfolding set_inputs set_input
  set_inputs-torque_setpoint on [] a named = refl
  set_inputs-torque_setpoint on (key ∷ keys) a named = set_inputs-torque_setpoint on keys _ _

module _ {F : Type 0} ⦃d : Double F⦄ ⦃n : Narrow F⦄ where
  pub receive-torque_setpoint :
      (frame : Frame) (a : Axis F) → (receive frame a).torque_setpoint ≡ a.torque_setpoint
  unfolding receive decode_then on_encoder_estimates on_torques on_powers
  receive-torque_setpoint frame a = ground arith

module _ {F : Type 0} where
  pub All-get_elem? :
      (P : F → Type 0) (xs : List F) (i : ℕ) {x : F} → All P xs → get_elem? xs i ≡ some x → P x
  All-get_elem? P [] i h e = absurd (ground arith)
  All-get_elem? P (y ∷ ys) zero (h, hs) e = subst (λ o. elim o [ none ↦ P y | some x ↦ P x ]) e h
  All-get_elem? P (y ∷ ys) (suc i) {x} (h, hs) e = All-get_elem? P ys i {x = x} hs e

module _ {T F : Type 0} ⦃d : Double F⦄ where
  -- Every command of the topic and the setpoint are within the limit.
  pub record IsLimited (limit : F) (s : System T F) : Type 0 where
    pub clip_same : s.mixer.hard_clip_nm ≡ limit
    pub commands_limited : All (Bounded limit) s.commands
    pub setpoint_limited : Bounded limit s.motor.torque_setpoint

module _ {T F : Type 0} ⦃d : Double F⦄ ⦃clock : Clock T F⦄ (laws : IsIeee F) where
  -- What an event of the mixer publishes is within its clip.
  step-Bounded :
      (m : Mixer T F) (e : Mixer.Event T F)
      → (f0 <? m.hard_clip_nm) ≡ true
      → All (Bounded m.hard_clip_nm) (Mixer.step m e).1
  unfolding Mixer.step Mixer.tick
  step-Bounded m (pid_message taus now) pos = tt
  step-Bounded m (load_message tau now) pos = tt
  step-Bounded m (enable_load_request on) pos = tt
  step-Bounded m (parameters ps) pos = tt
  step-Bounded m (timer now) pos = (clamp-Bounded laws _ m.hard_clip_nm pos, tt)

module _ {T F : Type 0} ⦃d : Double F⦄ ⦃clock : Clock T F⦄ ⦃n : Narrow F⦄ (junk : Junk)
    (laws : IsIeee F) (limit : F) where
  Step-IsLimited :
      {s t : System T F}
      → (f0 <? limit) ≡ true
      → IsLimited limit s
      → Step junk s t
      → IsLimited limit t
  unfolding switch_axis
  Step-IsLimited {s} pos v (mixes e same) =
      let bounded =
        subst (λ l. All (Bounded l) (Mixer.step s.mixer e).1) v.clip_same
          (step-Bounded laws s.mixer e (subst (λ l. (f0 <? l) ≡ true) (sym v.clip_same) pos)) in
      record {
        clip_same = same ∙ v.clip_same;
        commands_limited =
            All-append (Bounded limit) s.commands (Mixer.step s.mixer e).1 v.commands_limited
              bounded;
        setpoint_limited = v.setpoint_limited;
      }
  Step-IsLimited {s} pos v (delivers i {x} e) = record {
    clip_same = v.clip_same;
    commands_limited = v.commands_limited;
    setpoint_limited = All-get_elem? (Bounded limit) s.commands i {x = x} v.commands_limited e;
  }
  Step-IsLimited {s} pos v (switches active start stop) = record {
    clip_same = v.clip_same;
    commands_limited = v.commands_limited;
    setpoint_limited =
        subst (Bounded limit)
          (sym (
            set_inputs-torque_setpoint true start _ _
            ∙ set_inputs-torque_setpoint false stop s.motor false))
          v.setpoint_limited;
  }
  Step-IsLimited {s} pos v (receives frame) = record {
    clip_same = v.clip_same;
    commands_limited = v.commands_limited;
    setpoint_limited =
        subst (Bounded limit) (sym (receive-torque_setpoint frame s.motor)) v.setpoint_limited;
  }

  Reach-IsLimited :
      {s0 s : System T F}
      → (f0 <? limit) ≡ true
      → IsLimited limit s0
      → Reach junk s0 s
      → IsLimited limit s
  Reach-IsLimited pos v at_start = v
  Reach-IsLimited pos v (later r step) = Step-IsLimited pos (Reach-IsLimited pos v r) step

module _ {T F : Type 0} ⦃d : Double F⦄ ⦃clock : Clock T F⦄ ⦃n : Narrow F⦄ ⦃f : Float32⦄
    (junk : Junk) (laws : IsIeee F) where
  -- From the start of the mixer and of the motor's axis on, in every interleaving of callbacks and
  -- ticks of the mixer that leave its clip, of deliveries of its commands, late, again or never, of
  -- switches of the command modes and of frames of the drive: an axis in torque control sends one
  -- torque frame to its node, with a torque that is neither below minus the hard clip nor above
  -- it, as a float. The clip is not NaN, and the node id has at most 27 bits.
  pub Reach-torque_request :
      (epoch : T) (p : Settings F) (nan : F) (joint_name : String) (node_id : ℕ) {s : System T F}
      → is_nan (Mixer.construct epoch p).hard_clip_nm ≡ false
      → Reach junk (init junk epoch p nan joint_name node_id) s
      → s.motor.node_id < 2 ^ 27
      → s.motor.pos_input_enabled ≡ false
      → s.motor.vel_input_enabled ≡ false
      → s.motor.torque_input_enabled ≡ true
      → (x : F) × Bounded (Mixer.construct epoch p).hard_clip_nm x
        × (map torque_request (write_axis junk s.motor)
            ≡ (s.motor.node_id, set_input_torque_msg.cmd_id, record { input_torque = n.to_float x })
              ∷ [])
  unfolding new_axis
  Reach-torque_request epoch p nan joint_name node_id {s} real reach fits pos vel torque =
      let clip = (Mixer.construct epoch p).hard_clip_nm in
      let valid = construct-IsValid laws epoch p in
      let above = positive_of_not_le laws clip real valid.clip_pos in
      let limited =
        Reach-IsLimited junk laws clip above
          (record {
            clip_same = refl;
            commands_limited = tt;
            setpoint_limited = zero-Bounded laws clip above;
          })
          reach in
      (
        s.motor.torque_setpoint,
        limited.setpoint_limited,
        write_axis-torque junk s.motor fits pos vel torque,
      )
