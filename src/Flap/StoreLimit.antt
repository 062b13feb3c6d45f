-- ===== src/Flap/StoreLimit.antt =====
-- The torque limit of the shadow controller, in the store and where it is read from there.
use marine_robotics_hil_sea.Base.{
  ◌≡◌, ◌⊎◌, inl, inr, false, Option-cases, some, List, [], ◌∷◌, All, String, eq_iff, if◌then◌else◌,
  arith,
}
use mathlib.Core.Path.{subst}
use marine_robotics_hil_sea.Flap.Apply.{read_settings, read_gains, read_shadow_params}
use marine_robotics_hil_sea.Flap.State.{Setting, shadow_settings}
use marine_robotics_hil_sea.Flap.Store.{
  get_parameter, get_double, get_string, put_parameter, put_parameters,
}
use marine_robotics_hil_sea.Flap.Validation.{
  validate_one, check_shadow_control_mode, check_positive, check_non_negative, check_filter_alpha,
  is_valid_control_mode,
}
use marine_robotics_hil_sea.Float.{Double, ◌≤?◌, f0}
use marine_robotics_hil_sea.Ros.{Parameter, accepted, contains, validate_each}
use marine_robotics_hil_sea.Shadow
use marine_robotics_hil_sea.Shadow.{ShadowPidController}

module _ {F : Type 0} where
  -- What is read after a change is what was put, or what was there.
  pub get_double-put_parameter :
      (p : Parameter F) (store : List (Parameter F)) (key : String) {x : F}
      → get_double (put_parameter p store) key ≡ some x
      → ((p.name ≡ key) × (p.as_double ≡ some x)) ⊎ (get_double store key ≡ some x)
  unfolding get_double get_parameter put_parameter
  get_double-put_parameter p [] key h = inr h
  get_double-put_parameter p (q ∷ qs) key {x} h =
      let rest : get_double (put_parameter p qs) key ≡ some x
          → ((p.name ≡ key) × (p.as_double ≡ some x)) ⊎ (get_double qs key ≡ some x) =
        get_double-put_parameter p qs key {x = x} in
      ground (arith, eq_iff p.name key, eq_iff q.name p.name, eq_iff q.name key, rest, h)

module _ {F : Type 0} ⦃d : Double F⦄ where
  -- The torque limit in a store, and that of a controller, is not refused.
  unfoldable pub StoreLimited : List (Parameter F) → Type 0
  StoreLimited store =
      (x : F) → get_double store "shadow_torque_limit_nm" ≡ some x → (x ≤? f0) ≡ false

  abbrev pub Limited : ShadowPidController F → Type 0
  Limited c = (c.torque_limit_nm ≤? f0) ≡ false

  accepted-limit :
      (p : Parameter F) (x : F)
      → validate_one (record p { name = "shadow_torque_limit_nm" }) ≡ accepted
      → p.as_double ≡ some x
      → (x ≤? f0) ≡ false
  unfolding validate_one check_shadow_control_mode check_positive check_non_negative
      check_filter_alpha contains
  accepted-limit p x ok value = ground arith

  abbrev Kept : List (Parameter F) → Setting (ShadowPidController F) F → Type 0
  Kept store e =
      (x : F) (c : ShadowPidController F)
      → get_double store e.name ≡ some x
      → Limited c
      → Limited (e.write x c)

  shadow_settings-Kept :
      (store : List (Parameter F)) → StoreLimited store → All (Kept store) shadow_settings
  unfolding shadow_settings StoreLimited
  shadow_settings-Kept store limited = ground (arith, limited)

  read_settings-Limited :
      (es : List (Setting (ShadowPidController F) F)) (store : List (Parameter F))
      (c : ShadowPidController F)
      → All (Kept store) es
      → Limited c
      → Limited (read_settings es store c).0
  unfolding read_settings
  read_settings-Limited [] store c ks h = h
  read_settings-Limited (e ∷ es) store c (k, ks) h = elim (Option-cases (get_double store e.name)) [
    | inl missing ↦ rw (missing, read_settings) h
    | inr (x, found) ↦
        rw (found, read_settings) (read_settings-Limited es store (e.write x c) ks (k x c found h))
  ]

  pub read_shadow_params-Limited :
      (store : List (Parameter F)) (c : ShadowPidController F)
      → StoreLimited store
      → Limited c
      → Limited (read_shadow_params store c).0
  unfolding read_shadow_params read_gains Shadow.reset
  read_shadow_params-Limited store c limited h =
      elim (Option-cases (get_string store "shadow_control_mode")) [
        | inl e ↦ rw (e, read_shadow_params) h
        | inr (mode, e) ↦
            let started = record c {
              control_mode = if is_valid_control_mode mode then mode else "position_only";
            } in
            let kept =
              read_settings-Limited shadow_settings store started
                (shadow_settings-Kept store limited) h in
            rw (e, read_shadow_params) (ground (arith, kept))
      ]

  pub put_parameters-StoreLimited :
      (ps store : List (Parameter F))
      → validate_each validate_one ps ≡ accepted
      → StoreLimited store
      → StoreLimited (put_parameters ps store)
  unfolding validate_each put_parameters StoreLimited
  put_parameters-StoreLimited [] store ok h = h
  put_parameters-StoreLimited (p ∷ ps) store ok h =
      put_parameters-StoreLimited ps (put_parameter p store) (ground (arith, ok)) (λ x found.
        elim (get_double-put_parameter p store "shadow_torque_limit_nm" {x = x} found) [
          | inl (name, value) ↦
              accepted-limit p x
                (subst (λ n. validate_one (record p { name = n }) ≡ accepted) name
                  (ground (arith, ok)))
                value
          | inr before ↦ h x before
        ])
