-- ===== src/Flap/Tuning.antt =====
-- What the validation of parameter changes keeps of the flap node's members.
use marine_robotics_hil_sea.Base.{
  ◌≡◌, refl, true, false, inl, inr, Bool-cases, arith, List, [], ◌∷◌, All, Option, none, some,
  str_eq, eq_iff, String,
}
use mathlib.Core.Path.{subst}
use marine_robotics_hil_sea.Flap.State.{
  FlapSim, Setting, find_setting, geometry_settings, joint_settings, hil_settings,
}
use marine_robotics_hil_sea.Flap.Validation.{
  validate_one, check_positive, check_non_negative, check_shadow_control_mode, check_filter_alpha,
}
use marine_robotics_hil_sea.Flap.Apply.{Flags, write_value}
use marine_robotics_hil_sea.Hydro.{Adapter}
use marine_robotics_hil_sea.Float.{Double, ◌<?◌, ◌≤?◌, f0}
use marine_robotics_hil_sea.Ros.{Parameter, accepted, contains}

-- The clip of the adapter, if there is one, is positive.
unfoldable pub AdapterClipped : {F V K : Type 0} ⦃d : Double F⦄ → Option (Adapter V K F) → Type 0
AdapterClipped none = Unit {0}
AdapterClipped (some a) = (f0 <? a.torque_clip_nm) ≡ true

module _ {T F W V K : Type 0} ⦃d : Double F⦄ where
  -- The tests `<= 0.0` and `< 0.0` of the validation do not hold of the members, and the
  -- clip of the adapter is positive.
  pub record IsValid (s : FlapSim T F W V K) : Type 0 where
    pub clip_pos : (s.hil.hil_torque_clip_nm ≤? f0) ≡ false
    pub timeout_pos : (s.hil.hil_feedback_timeout_s ≤? f0) ≡ false
    pub hydro_clip_pos : (s.hydro_torque_clip_nm ≤? f0) ≡ false
    pub length_pos : (s.flap_length ≤? f0) ≡ false
    pub width_pos : (s.flap_width ≤? f0) ≡ false
    pub mass_pos : (s.flap_mass ≤? f0) ≡ false
    pub damping_nonneg : (s.joint_damping <? f0) ≡ false
    pub stiffness_nonneg : (s.joint_stiffness <? f0) ≡ false
    pub bearing_nonneg : (s.bearing_friction <? f0) ≡ false
    pub coulomb_nonneg : (s.coulomb_friction <? f0) ≡ false
    pub virtual_stiffness_nonneg : (s.hil.hil_virtual_stiffness <? f0) ≡ false
    pub virtual_damping_nonneg : (s.hil.hil_virtual_damping <? f0) ≡ false
    pub drag_nonneg : (s.hil.hil_quadratic_drag <? f0) ≡ false
    pub amp_nonneg : (s.hil.hil_wave_amp_nm <? f0) ≡ false
    pub omega_nonneg : (s.hil.hil_wave_omega_rad_s <? f0) ≡ false
    pub ramp_nonneg : (s.hil.hil_ramp_time_s <? f0) ≡ false
    pub adapter_clipped : AdapterClipped s.hydro_adapter

  -- A write through the entry of a value that the validation has accepted keeps the members valid.
  abbrev pub Guarded : Setting (FlapSim T F W V K) F → Type 0
  Guarded e =
      (p : Parameter F) (x : F) (s : FlapSim T F W V K)
      → validate_one (record p { name = e.name }) ≡ accepted
      → p.as_double ≡ some x
      → IsValid s
      → IsValid (e.write x s)

module _ {F : Type 0} ⦃d : Double F⦄ where
  -- What the validation accepted under a name it accepts under an equal name.
  pub renamed :
      (p : Parameter F) (name : String)
      → str_eq name p.name ≡ true
      → validate_one p ≡ accepted
      → validate_one (record p { name = name }) ≡ accepted
  renamed p name same ok =
      let e : p.name ≡ name = ground (arith, eq_iff name p.name) in
      subst (λ n. validate_one (record p { name = n }) ≡ accepted) e ok

module _ (T F W V K : Type 0) ⦃d : Double F⦄ where
  pub geometry-Guarded : All Guarded (geometry_settings {T = T} {F = F} {W = W} {V = V} {K = K})
  unfolding geometry_settings validate_one check_positive check_non_negative
      check_shadow_control_mode check_filter_alpha contains
  geometry-Guarded = ground arith

  pub joint-Guarded : All Guarded (joint_settings {T = T} {F = F} {W = W} {V = V} {K = K})
  unfolding joint_settings validate_one check_positive check_non_negative check_shadow_control_mode
      check_filter_alpha contains
  joint-Guarded = ground arith

  pub hil-Guarded : All Guarded (hil_settings {T = T} {F = F} {W = W} {V = V} {K = K})
  unfolding hil_settings validate_one check_positive check_non_negative check_shadow_control_mode
      check_filter_alpha contains
  hil-Guarded = ground arith

module _ {T F W V K : Type 0} ⦃d : Double F⦄ where
  -- The part of a result that stands before an exception is valid.
  abbrev pub ValidResult : Option (FlapSim T F W V K × Flags) → Type 0
  ValidResult none = Unit {0}
  ValidResult (some next) = IsValid next.0

  pub write_value-Valid :
      (o : Option F) (write : F → FlapSim T F W V K → FlapSim T F W V K) (flags : Flags)
      (s : FlapSim T F W V K)
      → ((x : F) → o ≡ some x → IsValid (write x s))
      → ValidResult (write_value o write flags s)
  unfolding write_value
  write_value-Valid none write flags s h = tt
  write_value-Valid (some x) write flags s h = h x refl

  find_setting-Guarded :
      (es : List (Setting (FlapSim T F W V K) F)) (p : Parameter F)
      {e : Setting (FlapSim T F W V K) F}
      → All Guarded es
      → find_setting es p.name ≡ some e
      → Guarded e × (str_eq e.name p.name ≡ true)
  unfolding find_setting
  find_setting-Guarded [] p g found = absurd (ground arith)
  find_setting-Guarded (e ∷ es) p {e = f} (g, gs) found = elim (Bool-cases (str_eq e.name p.name)) [
    | inl here ↦
        let same : e ≡ f = ground arith in
        (subst Guarded same g, subst (λ k. (str_eq k.name p.name) ≡ true) same here)
    | inr there ↦ find_setting-Guarded es p {e = f} gs (ground arith)
  ]

  pub setting-Valid :
      (es : List (Setting (FlapSim T F W V K) F)) (p : Parameter F) (flags : Flags)
      (s : FlapSim T F W V K) {e : Setting (FlapSim T F W V K) F}
      → All Guarded es
      → find_setting es p.name ≡ some e
      → validate_one p ≡ accepted
      → IsValid s
      → ValidResult (write_value p.as_double e.write flags s)
  setting-Valid es p flags s {e} gs found ok v =
      let (g, same) = find_setting-Guarded es p {e = e} gs found in
      write_value-Valid p.as_double e.write flags s
        (λ x value. g p x s (renamed p e.name same ok) value v)
