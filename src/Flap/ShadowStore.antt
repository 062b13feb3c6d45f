-- ===== src/Flap/ShadowStore.antt =====
-- The shadow parameters that the validation tests, in the store and where they are read from there.
use marine_robotics_hil_sea.Base.{
  ◌≡◌, ◌⊎◌, inl, inr, true, false, Option-cases, some, List, [], ◌∷◌, All, String, eq_iff, arith,
}
use mathlib.Core.Path.{subst}
use marine_robotics_hil_sea.Flap.Apply.{read_settings, read_gains, read_shadow_params}
use marine_robotics_hil_sea.Flap.State.{Setting, shadow_settings}
use marine_robotics_hil_sea.Flap.Store.{
  get_parameter, get_double, get_string, put_parameter, put_parameters,
}
use marine_robotics_hil_sea.Flap.StoreLimit.{get_double-put_parameter}
use marine_robotics_hil_sea.Flap.Validation.{
  validate_one, check_shadow_control_mode, check_positive, check_non_negative, check_filter_alpha,
  is_valid_control_mode,
}
use marine_robotics_hil_sea.Float.{Double, ◌≤?◌, ◌<?◌, f0, f1}
use marine_robotics_hil_sea.Ros.{Parameter, accepted, contains, validate_each}
use marine_robotics_hil_sea.Shadow
use marine_robotics_hil_sea.Shadow.{ShadowPidController}

module _ {F : Type 0} where
  get_string-put_parameter :
      (p : Parameter F) (store : List (Parameter F)) (key : String) {x : String}
      → get_string (put_parameter p store) key ≡ some x
      → ((p.name ≡ key) × (p.as_string ≡ some x)) ⊎ (get_string store key ≡ some x)
  unfolding get_string get_parameter put_parameter
  get_string-put_parameter p [] key h = inr h
  get_string-put_parameter p (q ∷ qs) key {x} h =
      let rest : get_string (put_parameter p qs) key ≡ some x
          → ((p.name ≡ key) × (p.as_string ≡ some x)) ⊎ (get_string qs key ≡ some x) =
        get_string-put_parameter p qs key {x = x} in
      ground (arith, eq_iff p.name key, eq_iff q.name p.name, eq_iff q.name key, rest, h)

module _ {F : Type 0} ⦃d : Double F⦄ where
  abbrev pub NotRefused : F → Type 0
  NotRefused x = (x ≤? f0) ≡ false

  abbrev pub InUnitRange : F → Type 0
  InUnitRange x = ((x <? f0) ≡ false) × ((f1 ≤? x) ≡ false)

  -- What a key has in a store.
  abbrev StoredAs : (F → Type 0) → String → List (Parameter F) → Type 0
  StoredAs R key store = (x : F) → get_double store key ≡ some x → R x

  -- The store's values under the tested names pass the tests.
  pub record StoreTuned (store : List (Parameter F)) : Type 0 where
    pub torque_limit : StoredAs NotRefused "shadow_torque_limit_nm" store
    pub integral_limit : StoredAs NotRefused "shadow_pos_integral_limit" store
    pub output_limit : StoredAs NotRefused "shadow_pos_output_limit" store
    pub divider : StoredAs NotRefused "shadow_outer_loop_divider" store
    pub alpha : StoredAs InUnitRange "shadow_filter_alpha" store
    pub mode :
        (m : String)
        → get_string store "shadow_control_mode" ≡ some m
        → is_valid_control_mode m ≡ true

  -- The controller's members pass them.
  pub record ControllerTuned (c : ShadowPidController F) : Type 0 where
    pub torque_limit : NotRefused c.torque_limit_nm
    pub integral_limit : NotRefused c.pos_integral_limit
    pub output_limit : NotRefused c.pos_output_limit
    pub divider : NotRefused c.outer_loop_divider
    pub alpha : InUnitRange c.filter_alpha
    pub mode : is_valid_control_mode c.control_mode ≡ true

  -- A test that accepts a value under its name, and a change of the store.
  abbrev Tests : (F → Type 0) → String → Type 0
  Tests R key =
      (p : Parameter F) (x : F)
      → validate_one (record p { name = key }) ≡ accepted
      → p.as_double ≡ some x
      → R x

  Tests-torque_limit : Tests NotRefused "shadow_torque_limit_nm"
  unfolding validate_one check_shadow_control_mode check_positive check_non_negative
      check_filter_alpha contains
  Tests-torque_limit p x ok value = ground arith

  Tests-integral_limit : Tests NotRefused "shadow_pos_integral_limit"
  unfolding validate_one check_shadow_control_mode check_positive check_non_negative
      check_filter_alpha contains
  Tests-integral_limit p x ok value = ground arith

  Tests-output_limit : Tests NotRefused "shadow_pos_output_limit"
  unfolding validate_one check_shadow_control_mode check_positive check_non_negative
      check_filter_alpha contains
  Tests-output_limit p x ok value = ground arith

  Tests-divider : Tests NotRefused "shadow_outer_loop_divider"
  unfolding validate_one check_shadow_control_mode check_positive check_non_negative
      check_filter_alpha contains
  Tests-divider p x ok value = ground arith

  Tests-alpha : Tests InUnitRange "shadow_filter_alpha"
  unfolding validate_one check_shadow_control_mode check_positive check_non_negative
      check_filter_alpha contains
  Tests-alpha p x ok value = ground arith

  control_mode_tested :
      (p : Parameter F) (m : String)
      → validate_one (record p { name = "shadow_control_mode" }) ≡ accepted
      → p.as_string ≡ some m
      → is_valid_control_mode m ≡ true
  unfolding validate_one check_shadow_control_mode check_positive check_non_negative
      check_filter_alpha contains
  control_mode_tested p m ok value = ground arith

  put_parameter-StoredAs :
      (R : F → Type 0) (key : String) (tests : Tests R key) (p : Parameter F)
      (store : List (Parameter F))
      → validate_one p ≡ accepted
      → StoredAs R key store
      → StoredAs R key (put_parameter p store)
  put_parameter-StoredAs R key tests p store ok h x found =
      elim (get_double-put_parameter p store key {x = x} found) [
        | inl (name, value) ↦
            tests p x (subst (λ n. validate_one (record p { name = n }) ≡ accepted) name ok) value
        | inr before ↦ h x before
      ]

  put_parameter-StoreTuned :
      (p : Parameter F) (store : List (Parameter F))
      → validate_one p ≡ accepted
      → StoreTuned store
      → StoreTuned (put_parameter p store)
  put_parameter-StoreTuned p store ok v = record {
    torque_limit = put_parameter-StoredAs NotRefused _ Tests-torque_limit p store ok v.torque_limit;
    integral_limit =
        put_parameter-StoredAs NotRefused _ Tests-integral_limit p store ok v.integral_limit;
    output_limit = put_parameter-StoredAs NotRefused _ Tests-output_limit p store ok v.output_limit;
    divider = put_parameter-StoredAs NotRefused _ Tests-divider p store ok v.divider;
    alpha = put_parameter-StoredAs InUnitRange _ Tests-alpha p store ok v.alpha;
    mode = λ m found. elim (get_string-put_parameter p store _ {x = m} found) [
      | inl (name, value) ↦
          control_mode_tested p m
            (subst (λ n. validate_one (record p { name = n }) ≡ accepted) name ok) value
      | inr before ↦ v.mode m before
    ];
  }

  pub put_parameters-StoreTuned :
      (ps store : List (Parameter F))
      → validate_each validate_one ps ≡ accepted
      → StoreTuned store
      → StoreTuned (put_parameters ps store)
  unfolding validate_each put_parameters
  put_parameters-StoreTuned [] store ok v = v
  put_parameters-StoreTuned (p ∷ ps) store ok v =
      put_parameters-StoreTuned ps (put_parameter p store) (ground (arith, ok))
        (put_parameter-StoreTuned p store (ground (arith, ok)) v)

  abbrev Kept : List (Parameter F) → Setting (ShadowPidController F) F → Type 0
  Kept store e =
      (x : F) (c : ShadowPidController F)
      → get_double store e.name ≡ some x
      → ControllerTuned c
      → ControllerTuned (e.write x c)

  shadow_settings-Kept :
      (store : List (Parameter F)) → StoreTuned store → All (Kept store) shadow_settings
  unfolding shadow_settings
  shadow_settings-Kept store v =
      ground (arith, v.torque_limit, v.integral_limit, v.output_limit, v.divider, v.alpha)

  read_settings-Tuned :
      (es : List (Setting (ShadowPidController F) F)) (store : List (Parameter F))
      (c : ShadowPidController F)
      → All (Kept store) es
      → ControllerTuned c
      → ControllerTuned (read_settings es store c).0
  unfolding read_settings
  read_settings-Tuned [] store c ks h = h
  read_settings-Tuned (e ∷ es) store c (k, ks) h = elim (Option-cases (get_double store e.name)) [
    | inl missing ↦ rw (missing, read_settings) h
    | inr (x, found) ↦
        rw (found, read_settings) (read_settings-Tuned es store (e.write x c) ks (k x c found h))
  ]

  pub read_shadow_params-Tuned :
      (store : List (Parameter F)) (c : ShadowPidController F)
      → StoreTuned store
      → ControllerTuned c
      → ControllerTuned (read_shadow_params store c).0
  unfolding read_shadow_params read_gains Shadow.reset
  read_shadow_params-Tuned store c v h =
      elim (Option-cases (get_string store "shadow_control_mode")) [
        | inl e ↦ rw (e, read_shadow_params) h
        | inr (mode, e) ↦
            let valid = v.mode mode e in
            let started = record c { control_mode = mode } in
            let kept =
              read_settings-Tuned shadow_settings store started (shadow_settings-Kept store v)
                (ground (arith, valid, h)) in
            rw (e, valid, read_shadow_params) (ground (arith, kept))
      ]
