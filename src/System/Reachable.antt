-- ===== src/System/Reachable.antt =====
-- What the drive is asked for in the states that the whole stack reaches.
use marine_robotics_hil_sea.Base.{
  ℕ, ◌^◌, ◌<◌, ◌≡◌, refl, sym, ◌⊎◌, inl, inr, true, false, List, [], ◌∷◌, map, All, String,
}
use mathlib.Core.Path.{subst}
use marine_robotics_hil_sea.Can.Float32.{Float32}
use marine_robotics_hil_sea.Can.Messages.{set_input_torque_msg}
use marine_robotics_hil_sea.Chrono.{Chrono}
use marine_robotics_hil_sea.Flap.State.{FlapSim}
use marine_robotics_hil_sea.Flap.Tuning.{IsValid}
use marine_robotics_hil_sea.Float.{
  Double, IsIeee, ◌⊕◌, ◌<?◌, neg, f0, is_nan, clamp, Bounded, zero-Bounded, positive_of_not_le,
}
use marine_robotics_hil_sea.Hydro.{Coupling}
use marine_robotics_hil_sea.Mixer
use marine_robotics_hil_sea.Mixer.{Settings}
use marine_robotics_hil_sea.Odrive.{Narrow, Junk, new_axis, write_axis}
use marine_robotics_hil_sea.Odrive.Estimates.{torque_request, write_axis-torque}
use marine_robotics_hil_sea.Ros.{Clock}
use marine_robotics_hil_sea.System.Drive.{All-get_elem?}
use marine_robotics_hil_sea.System.Network.{Network, limits, adapter_clip, Reach}
use marine_robotics_hil_sea.System.Origin.{Reach-IsTraced, IsTraced}
use marine_robotics_hil_sea.System.Trace.{Sent, LoadWithin, Mixed, Bounded-Within}
use marine_robotics_hil_sea.Velocity
use marine_robotics_hil_sea.Velocity.{Params}
use marine_robotics_hil_sea.Velocity.Startup.{construct-IsTuned}

module _ {F : Type 0} ⦃d : Double F⦄ where
  -- What holds of zero and of all messages holds of what was sent.
  Sent-holds : (P : F → Type 0) (xs : List F) (x : F) → P f0 → All P xs → Sent xs x → P x
  Sent-holds P xs x zero_holds h (inl e) = subst P (sym e) zero_holds
  Sent-holds P xs x zero_holds h (inr (i, e)) = All-get_elem? P xs i {x = x} h e

module _ {T F W V K : Type 0} ⦃d : Double F⦄ where
  -- Zero, or the clipped sum of a PID torque and a load, each a message of its topic, or zero, and
  -- each within its limits at the start.
  abbrev pub Origin : Network T F W V K → Network T F W V K → F → Type 0
  Origin s0 s x =
      (x ≡ f0)
      ⊎ ((p : F) × (l : F) × (Sent s.pid_torques p × Bounded s0.node.params.torque_limit_nm p)
          × (Sent s.loads l
              × LoadWithin s0.flap.hil.hil_torque_clip_nm (adapter_clip s0.flap.hydro_adapter) l)
          × (x ≡ clamp (p ⊕ l) (neg s0.mixer.hard_clip_nm) s0.mixer.hard_clip_nm))

  IsTraced-Origin :
      (s0 s : Network T F W V K)
      → IsIeee F
      → is_nan (limits s0).1.0 ≡ false
      → IsValid s0.flap
      → IsTraced s0 s
      → (f0 <? s0.node.params.torque_limit_nm) ≡ true
      → Origin s0 s s.motor.torque_setpoint
  IsTraced-Origin s0 s laws real valid v pos =
      let clip = s0.flap.hil.hil_torque_clip_nm in
      let load_zero =
        Bounded-Within clip f0 (adapter_clip s0.flap.hydro_adapter)
          (zero-Bounded laws clip (positive_of_not_le laws clip real valid.clip_pos)) in
      elim v.setpoint_sent [
        | inl e ↦ inl e
        | inr (i, e) ↦
            let (p, l, sent_p, sent_l, sum) =
              All-get_elem? (Mixed s0.mixer.hard_clip_nm s.pid_torques s.loads) s.commands i
                {x = s.motor.torque_setpoint} v.commands_mixed e in
            inr (
              p,
              l,
              (
                sent_p,
                Sent-holds (Bounded s0.node.params.torque_limit_nm) s.pid_torques p
                    (zero-Bounded laws _ pos) v.torques_bounded sent_p,
              ),
              (
                sent_l,
                Sent-holds (LoadWithin clip (adapter_clip s0.flap.hydro_adapter)) s.loads l
                    load_zero v.loads_bounded sent_l,
              ),
              sum,
            )
      ]

module _ {T F W V K : Type 0} ⦃d : Double F⦄ ⦃clock : Clock T F⦄ ⦃c : Chrono W F⦄
    ⦃k : Coupling W V K F⦄ ⦃n : Narrow F⦄ (junk : Junk) where
  -- The stack as its nodes are constructed, around a flap node.
  abbrev pub start_of :
      T
      → T
      → String
      → String
      → Params F
      → FlapSim T F W V K
      → Settings F
      → F
      → String
      → ℕ
      → Network T F W V K
  start_of loop_time now joint_name mode read flap p nan motor_name node_id = record {
    node = Velocity.construct loop_time now joint_name mode read;
    flap = flap;
    mixer = Mixer.construct now p;
    motor = new_axis nan motor_name node_id;
    pid_torques = [];
    loads = [];
    commands = [];
  }

  module _ ⦃f : Float32⦄ (laws : IsIeee F) where
    -- From the start of the velocity node, the mixer and the axis on, around a flap node with valid
    -- members and a torque clip that is not NaN, in every interleaving of their callbacks and ticks, of
    -- joint states, requests and those parameter changes that move no limit, of deliveries on the three
    -- topics, late, again or never, of switches of the command modes and of frames of the drive: an
    -- axis in torque control sends one torque frame to its node, with 0.0, or with the sum, clipped to
    -- the hard clip, of a torque that the velocity node published, within its torque limit, and a load
    -- that the flap node published, within its clip or that of its adapter, or 0.0 in place of either.
    -- The node id has at most 27 bits.
    pub Reach-Origin :
        (loop_time now : T) (joint_name mode : String) (read : Params F) (flap : FlapSim T F W V K)
        (p : Settings F) (nan : F) (motor_name : String) (node_id : ℕ) {s : Network T F W V K}
        → IsValid flap
        → is_nan flap.hil.hil_torque_clip_nm ≡ false
        → Reach junk (start_of loop_time now joint_name mode read flap p nan motor_name node_id) s
        → s.motor.node_id < 2 ^ 27
        → s.motor.pos_input_enabled ≡ false
        → s.motor.vel_input_enabled ≡ false
        → s.motor.torque_input_enabled ≡ true
        → (x : F) × Origin
            (start_of loop_time now joint_name mode read flap p nan motor_name node_id)
            s
            x
          × (map torque_request (write_axis junk s.motor)
              ≡ (
                s.motor.node_id,
                set_input_torque_msg.cmd_id,
                record { input_torque = n.to_float x },
              )
                ∷ [])
    unfolding new_axis Mixer.construct
    Reach-Origin loop_time now joint_name mode read flap p nan motor_name node_id {s} valid real
          reach fits pos vel torque =
        let s0 = start_of loop_time now joint_name mode read flap p nan motor_name node_id in
        let tuned = construct-IsTuned laws loop_time now joint_name mode read in
        let traced =
          Reach-IsTraced junk laws s0 real
            (record {
              same = refl;
              tuned = tuned;
              valid = valid;
              torques_bounded = tt;
              loads_bounded = tt;
              pid_sent = inl refl;
              load_sent = inl refl;
              commands_mixed = tt;
              setpoint_sent = inl refl;
            })
            reach in
        (
          s.motor.torque_setpoint,
          IsTraced-Origin s0 s laws real valid traced tuned.torque_pos,
          write_axis-torque junk s.motor fits pos vel torque,
        )
