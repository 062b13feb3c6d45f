-- ===== src/Flap/Defs.antt =====
-- `class ChronoFlapNode` in the mode `hil`: the joint state subscription, the services, and one pass
-- of the loop in `run`. Project Chrono and SEA-Stack are not part of the repository: what the
-- hydrodynamics adapter returns in a pass is an argument.
use marine_robotics_hil_sea.Base.{
  ℕ, ◌+◌, Bool, true, false, not, ◌&&◌, Option, none, some, List, [], ◌∷◌, ◌++◌, String, str_eq,
  get_elem?, length, drop, ltb, if◌then◌else◌,
}
use marine_robotics_hil_sea.Float.{
  Double, ◌⊕◌, ◌⊖◌, ◌⊗◌, ◌⊘◌, ◌<?◌, neg, abs, sin, f0, f1, lit, clamp,
}
use marine_robotics_hil_sea.Hydro.{HydroStepResult}
use marine_robotics_hil_sea.Ros.{Clock}

-- The members that the mode `hil` uses.
pub record FlapNode (T F : Type 0) : Type 0 where
  pub joint_name : String
  pub publish_dt : F
  pub start_time : T
  pub hil_constant_load_nm : F
  pub hil_virtual_stiffness : F
  pub hil_virtual_damping : F
  pub hil_quadratic_drag : F
  pub hil_wave_amp_nm : F
  pub hil_wave_omega_rad_s : F
  pub hil_torque_clip_nm : F
  pub hil_feedback_timeout_s : F
  pub hil_ramp_time_s : F
  pub hil_engaged : Bool
  pub hil_ramp_start_time : F
  pub hydro_engaged : Bool
  pub clip_engaged_history : List Bool
  pub hw_pos : F
  pub hw_vel : F
  pub hw_stamp : T
  pub hw_received : Bool
  pub sim_position : F
  pub sim_velocity : F
  pub sim_acceleration : F

-- The fields of the joint state that the subscription reads.
pub record HwJointState (T F : Type 0) : Type 0 where
  pub names : List String
  pub position : List F
  pub velocity : List F
  pub stamp : T

-- A message on one of the node's topics; a joint state carries the position, the
-- velocity and, that of the mode sil, the effort.
pub data Publication (F : Type 0) : Type 0 where
  load_torque hydro_torque_raw hydro_torque wave_elevation hydro_clip_engaged_pct sim_position
        sim_velocity sim_acceleration shadow_torque :
      F → Publication F
  sim_joint_state : F → F → Publication F
  joint_state : F → F → F → Publication F

-- `push_back`, and `pop_front` if there are more than 100.
unfoldable pub record_clip : List Bool → Bool → List Bool
record_clip history was_clipped =
    let longer = history ++ was_clipped ∷ [] in
    if ltb 100 (length longer) then drop 1 longer else longer

unfoldable pub count : List Bool → ℕ
count [] = 0
count (b ∷ bs) = (if b then 1 else 0) + count bs

module _ {F : Type 0} ⦃d : Double F⦄ where
  -- The percentage of the ticks in the history that were clipped.
  unfoldable pub clip_engaged_pct : List Bool → F
  clip_engaged_pct history =
      let size = length history in
      (lit 100 0 ⊗ d.of_ℕ (count history)) ⊘ d.of_ℕ (if ltb 1 size then size else 1)

  -- `(i < v.size()) ? v[i] : 0.0`
  abbrev pub value_or_zero : Option F → F
  value_or_zero none = f0
  value_or_zero (some x) = x

  -- The telemetry's values, zero where the adapter was not called.
  abbrev pub telemetry : Option (HydroStepResult F) → HydroStepResult F
  telemetry none = record {
    torque_raw_nm = f0;
    torque_clip_nm = f0;
    wave_eta_m = f0;
    was_clipped = false;
  }
  telemetry (some r) = r

module _ {T F : Type 0} ⦃d : Double F⦄ where
  -- The search of the subscription, from index `i` on; the state stays where no name fits.
  unfoldable pub take_sample : List String → ℕ → HwJointState T F → FlapNode T F → FlapNode T F
  take_sample [] i msg s = s
  take_sample (name ∷ names) i msg s =
      if str_eq name s.joint_name
      then record s {
        hw_pos = value_or_zero (get_elem? msg.position i);
        hw_vel = value_or_zero (get_elem? msg.velocity i);
        hw_stamp = msg.stamp;
        hw_received = true;
      }
      else take_sample names (i + 1) msg s

  unfoldable pub on_joint_state : HwJointState T F → FlapNode T F → FlapNode T F
  on_joint_state msg s = take_sample msg.names 0 msg s

  unfoldable pub on_enable_hydro : Bool → FlapNode T F → FlapNode T F
  on_enable_hydro on s = record s { hydro_engaged = on }

  unfoldable pub compute_load_torque : FlapNode T F → F → F → F → F
  compute_load_torque s theta omega t =
      let tau =
        hil_constant_load_nm
        ⊖ hil_virtual_stiffness ⊗ theta
        ⊖ hil_virtual_damping ⊗ omega
        ⊖ hil_quadratic_drag ⊗ omega ⊗ abs omega
        ⊕ hil_wave_amp_nm ⊗ sin (hil_wave_omega_rad_s ⊗ t) in
      clamp tau (neg hil_torque_clip_nm) hil_torque_clip_nm
    where
      open s use {
        hil_constant_load_nm, hil_virtual_stiffness, hil_virtual_damping, hil_quadratic_drag,
        hil_wave_amp_nm, hil_wave_omega_rad_s, hil_torque_clip_nm,
      }

  -- The ramp gate on a torque, at the time `now_s`.
  unfoldable pub ramp_gate : FlapNode T F → F → F → F
  ramp_gate s now_s tau =
      let elapsed = (now_s ⊖ s.hil_ramp_start_time) ⊘ s.hil_ramp_time_s in
      if s.hil_engaged
      then (if f0 <? s.hil_ramp_time_s then tau ⊗ clamp elapsed f0 f1 else tau)
      else if f0 <? s.hil_ramp_time_s
      then tau ⊗ (f1 ⊖ clamp elapsed f0 f1)
      else f0

  module _ ⦃clock : Clock T F⦄ where
    unfoldable pub on_engage : Bool → T → FlapNode T F → FlapNode T F
    on_engage on now s = record s { hil_engaged = on; hil_ramp_start_time = clock.seconds now }

    -- The watchdog on the measured joint state.
    unfoldable pub feedback_ok : FlapNode T F → T → Bool
    feedback_ok s now =
        s.hw_received && not (s.hil_feedback_timeout_s <? clock.since now s.hw_stamp)

    -- What the adapter, if there is one, returns in this pass; it is called only with good feedback
    -- and engaged hydrodynamics.
    unfoldable pub hydro_result :
        FlapNode T F → T → Option (HydroStepResult F) → Option (HydroStepResult F)
    hydro_result s now adapter = if feedback_ok s now && s.hydro_engaged then adapter else none

    -- The torque before the gate: the adapter's clipped torque in place of the stub's.
    unfoldable pub raw_load : FlapNode T F → T → Option (HydroStepResult F) → F
    raw_load s now (some r) = r.torque_clip_nm
    raw_load s now none =
        compute_load_torque s s.hw_pos s.hw_vel (clock.seconds now ⊖ clock.seconds s.start_time)

    -- The load torque that a pass publishes; the clock is read once.
    unfoldable pub load : FlapNode T F → T → Option (HydroStepResult F) → F
    load s now adapter =
        if feedback_ok s now
        then ramp_gate s (clock.seconds now) (raw_load s now (hydro_result s now adapter))
        else f0

    -- One pass of the loop.
    unfoldable pub hil_pass :
        FlapNode T F → T → Option (HydroStepResult F) → FlapNode T F × List (Publication F)
    hil_pass s now adapter =
        let r = telemetry (hydro_result s now adapter) in
        let history = record_clip s.clip_engaged_history r.was_clipped in
        let pos = if s.hw_received then s.hw_pos else s.sim_position in
        let vel = if s.hw_received then s.hw_vel else s.sim_velocity in
        let acc = (vel ⊖ s.sim_velocity) ⊘ s.publish_dt in
        (
          record s {
            clip_engaged_history = history;
            sim_position = pos;
            sim_velocity = vel;
            sim_acceleration = acc;
          },
          load_torque (load s now adapter)
              ∷ hydro_torque_raw r.torque_raw_nm
              ∷ hydro_torque r.torque_clip_nm
              ∷ wave_elevation r.wave_eta_m
              ∷ hydro_clip_engaged_pct (clip_engaged_pct history)
              ∷ Publication.sim_position pos
              ∷ Publication.sim_velocity vel
              ∷ Publication.sim_acceleration acc
              ∷ shadow_torque f0
              ∷ sim_joint_state pos vel
              ∷ [],
        )
