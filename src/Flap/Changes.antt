-- ===== src/Flap/Changes.antt =====
-- The validation and the application of a whole request to set parameters.
use marine_robotics_hil_sea.Base.{
  ◌≡◌, true, false, inl, inr, Bool-cases, arith, List, [], ◌∷◌, Option, none, some, Option-cases,
  str_eq, eq_iff,
}
use mathlib.Core.Path.{subst}
use marine_robotics_hil_sea.Chrono.{Chrono}
use marine_robotics_hil_sea.Flap.State.{
  FlapSim, find_setting, geometry_settings, joint_settings, hil_settings,
}
use marine_robotics_hil_sea.Flap.Store.{put_parameters}
use marine_robotics_hil_sea.Flap.Validation.{
  validate_one, on_validate_parameters, check_positive, check_non_negative,
  check_shadow_control_mode, check_filter_alpha,
}
use marine_robotics_hil_sea.Flap.Apply.{
  Flags, reclip, set_hydro_clip, write_use_shadow_pid, apply_hil, apply_shadow, apply_one,
  has_shadow_prefix, finish_apply, apply_each, on_apply_parameters, set_parameters,
  update_flap_inertia,
}
use marine_robotics_hil_sea.Hydro.{Adapter}
use marine_robotics_hil_sea.Hydro.Clip.{set_torque_clip-pos}
use marine_robotics_hil_sea.Float.{Double, IsIeee}
use marine_robotics_hil_sea.Ros.{Parameter, accepted, contains, validate_each}
use marine_robotics_hil_sea.Flap.Tuning.{
  AdapterClipped, IsValid, ValidResult, geometry-Guarded, joint-Guarded, hil-Guarded, renamed,
  write_value-Valid, setting-Valid,
}

module _ {F V K : Type 0} ⦃d : Double F⦄ (laws : IsIeee F) where
  reclip-AdapterClipped :
      (x : F) (a : Option (Adapter V K F)) → AdapterClipped a → AdapterClipped (reclip x a)
  unfolding AdapterClipped reclip
  reclip-AdapterClipped x none h = tt
  reclip-AdapterClipped x (some a) h = set_torque_clip-pos laws x a

module _ {T F W V K : Type 0} ⦃d : Double F⦄ (laws : IsIeee F) where
  hydro_clip-Guarded :
      (p : Parameter F) (x : F) (s : FlapSim T F W V K)
      → validate_one (record p { name = "hydro_torque_clip_nm" }) ≡ accepted
      → p.as_double ≡ some x
      → IsValid s
      → IsValid (set_hydro_clip x s)
  unfolding set_hydro_clip validate_one check_positive check_non_negative check_shadow_control_mode
      check_filter_alpha contains
  hydro_clip-Guarded p x s ok value v =
      ground (arith, reclip-AdapterClipped laws x s.hydro_adapter v.adapter_clipped)

  apply_hil-Valid :
      (p : Parameter F) (flags : Flags) (s : FlapSim T F W V K)
      → validate_one p ≡ accepted
      → IsValid s
      → ValidResult (apply_hil p flags s)
  unfolding apply_hil
  apply_hil-Valid p flags s ok v =
      elim (Option-cases
        (find_setting (hil_settings {T = T} {F = F} {W = W} {V = V} {K = K}) p.name)) [
          | inr (e, found) ↦
              rw (found, apply_hil)
                (setting-Valid hil_settings p flags s (hil-Guarded T F W V K) found ok v)
          | inl missing ↦ elim (Bool-cases (str_eq p.name "hydro_torque_clip_nm")) [
            | inl here ↦
                rw (missing, here, apply_hil)
                  (write_value-Valid p.as_double set_hydro_clip flags s (λ x value.
                    hydro_clip-Guarded p x s
                      (renamed p "hydro_torque_clip_nm"
                        (ground (arith, eq_iff p.name "hydro_torque_clip_nm")) ok)
                      value v))
            | inr there ↦ rw (missing, there, apply_hil) v
          ]
        ]

  write_use_shadow_pid-Valid :
      (p : Parameter F) (flags : Flags) (s : FlapSim T F W V K)
      → IsValid s
      → ValidResult (write_use_shadow_pid p flags s)
  unfolding write_use_shadow_pid
  write_use_shadow_pid-Valid p flags s v = elim (Option-cases p.as_bool) [
    | inl e ↦ rw e tt
    | inr (b, e) ↦ rw e (ground arith)
  ]

  apply_shadow-Valid :
      (p : Parameter F) (flags : Flags) (s : FlapSim T F W V K)
      → validate_one p ≡ accepted
      → IsValid s
      → ValidResult (apply_shadow p flags s)
  unfolding apply_shadow
  apply_shadow-Valid p flags s ok v = elim (Bool-cases (str_eq p.name "use_shadow_pid")) [
    | inl e ↦ rw e (write_use_shadow_pid-Valid p flags s v)
    | inr e ↦ elim (Bool-cases (has_shadow_prefix p.name)) [
      | inl f ↦ rw (e, f) v
      | inr f ↦ rw (e, f) (apply_hil-Valid p flags s ok v)
    ]
  ]

  apply_one-Valid :
      (p : Parameter F) (flags : Flags) (s : FlapSim T F W V K)
      → validate_one p ≡ accepted
      → IsValid s
      → ValidResult (apply_one p flags s)
  unfolding apply_one
  apply_one-Valid p flags s ok v =
      let body : Flags = record flags { body_needs_update = true } in
      elim (Option-cases
        (find_setting (geometry_settings {T = T} {F = F} {W = W} {V = V} {K = K}) p.name)) [
          | inr (e, found) ↦
              rw (found, apply_one)
                (setting-Valid geometry_settings p body s (geometry-Guarded T F W V K) found ok v)
          | inl missing ↦
              elim (Option-cases
                (find_setting (joint_settings {T = T} {F = F} {W = W} {V = V} {K = K}) p.name)) [
                  | inr (e, found) ↦
                      rw (missing, found, apply_one)
                        (setting-Valid joint_settings p flags s (joint-Guarded T F W V K) found ok
                          v)
                  | inl other ↦ rw (missing, other, apply_one) (apply_shadow-Valid p flags s ok v)
                ]
        ]

  module _ ⦃c : Chrono W F⦄ where
    finish_apply-IsValid :
        (flags : Flags) (s : FlapSim T F W V K) → IsValid s → IsValid (finish_apply flags s)
    unfolding finish_apply update_flap_inertia
    finish_apply-IsValid flags s v = elim (Bool-cases flags.body_needs_update) [
      | inl a ↦ elim (Bool-cases flags.shadow_pid_changed) [
        | inl b ↦ rw (a, b) (ground arith)
        | inr b ↦ rw (a, b) (ground arith)
      ]
      | inr a ↦ elim (Bool-cases flags.shadow_pid_changed) [
        | inl b ↦ rw (a, b) (ground arith)
        | inr b ↦ rw (a, b) v
      ]
    ]

    apply_each-IsValid :
        (ps : List (Parameter F)) (flags : Flags) (s : FlapSim T F W V K)
        → validate_each validate_one ps ≡ accepted
        → IsValid s
        → IsValid (apply_each ps flags s)
    unfolding apply_each validate_each
    apply_each-IsValid [] flags s ok v = finish_apply-IsValid flags s v
    apply_each-IsValid (p ∷ ps) flags s ok v = elim (Option-cases (apply_one p flags s)) [
      | inl e ↦ rw (e, apply_each) v
      | inr ((s', flags'), e) ↦
          let kept : IsValid s' =
            subst ValidResult e (apply_one-Valid p flags s (ground arith) v) in
          rw (e, apply_each) (apply_each-IsValid ps flags' s' (ground arith) kept)
    ]

    -- A request to set any parameters to any values, of any type and in any order, keeps the
    -- members valid: whether it is refused, applied, or interrupted by the exception of an
    -- accessor.
    pub set_parameters-IsValid :
        (ps : List (Parameter F)) (s : FlapSim T F W V K)
        → IsValid s
        → IsValid (set_parameters ps s)
    unfolding set_parameters on_apply_parameters on_validate_parameters
    set_parameters-IsValid ps s v = ground (
      arith,
      apply_each-IsValid ps (record { body_needs_update = false; shadow_pid_changed = false })
          (record s { store = put_parameters ps s.store }),
    )
