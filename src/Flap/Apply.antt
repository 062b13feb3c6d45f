-- ===== src/Flap/Apply.antt =====
-- `on_apply_parameters` of the flap node with what it calls, and a request to set parameters. An
-- exception of an accessor keeps what was written before it.
use Prim.Native.String.{slice}
use marine_robotics_hil_sea.Base.{
  Bool, true, false, Option, none, some, List, [], ◌∷◌, String, str_eq, if◌then◌else◌,
}
use marine_robotics_hil_sea.Chrono.{Chrono}
use marine_robotics_hil_sea.Flap.State.{
  FlapSim, Setting, find_setting, geometry_settings, joint_settings, hil_settings, shadow_settings,
}
use marine_robotics_hil_sea.Flap.Store.{get_double, get_string, put_parameters}
use marine_robotics_hil_sea.Flap.Validation.{is_valid_control_mode, on_validate_parameters}
use marine_robotics_hil_sea.Float.{Double, ◌⊗◌, ◌⊘◌, f0, f1, lit}
use marine_robotics_hil_sea.Hydro.{Adapter, set_torque_clip}
use marine_robotics_hil_sea.Ros.{Parameter, accepted, rejected, threw}
use marine_robotics_hil_sea.Shadow
use marine_robotics_hil_sea.Shadow.{ShadowPidController}

-- `body_needs_update` and `shadow_pid_changed`
pub record Flags : Type 0 where
  pub body_needs_update : Bool
  pub shadow_pid_changed : Bool

-- `n.rfind("shadow_", 0) == 0`
abbrev pub has_shadow_prefix : String → Bool
has_shadow_prefix n = str_eq (slice n 0 7) "shadow_"

module _ {S F : Type 0} where
  -- Reads of the store into members in sequence, up to the first exception.
  unfoldable pub read_settings : List (Setting S F) → List (Parameter F) → S → S × Bool
  read_settings [] store s = (s, true)
  read_settings (e ∷ es) store s = elim (get_double store e.name) [
    | none ↦ (s, false)
    | some x ↦ read_settings es store (e.write x s)
  ]

module _ {F : Type 0} ⦃d : Double F⦄ where
  unfoldable pub read_gains :
      List (Parameter F) → ShadowPidController F → ShadowPidController F × Bool
  read_gains store c =
      let (c', ok) = read_settings shadow_settings store c in
      (if ok then Shadow.reset c' else c', ok)

  -- `read_shadow_params`; false is an exception.
  unfoldable pub read_shadow_params :
      List (Parameter F) → ShadowPidController F → ShadowPidController F × Bool
  read_shadow_params store c = elim (get_string store "shadow_control_mode") [
    | none ↦ (c, false)
    | some mode ↦
        read_gains store
          (record c { control_mode = if is_valid_control_mode mode then mode else "position_only" })
  ]

module _ {F V K : Type 0} ⦃d : Double F⦄ where
  -- The call of the adapter, if there is one.
  unfoldable pub reclip : F → Option (Adapter V K F) → Option (Adapter V K F)
  reclip x none = none
  reclip x (some a) = some (set_torque_clip x a)

module _ {T F W V K : Type 0} ⦃d : Double F⦄ where
  unfoldable pub update_flap_inertia : ⦃c : Chrono W F⦄ → FlapSim T F W V K → FlapSim T F W V K
  update_flap_inertia ⦃c⦄ s =
      let L = s.flap_length in
      let m = s.flap_mass in
      let i_pivot = (f1 ⊘ lit 30 1) ⊗ m ⊗ L ⊗ L in
      let i_width = (f1 ⊘ lit 120 1) ⊗ m ⊗ s.flap_width ⊗ s.flap_width in
      let i_thin = lit 1 6 ⊗ i_pivot in
      let massive = c.set_inertia_xx i_pivot i_width i_thin (c.set_mass s.flap_mass s.world) in
      let placed = c.set_pos_dt f0 f0 f0 (c.set_pos f0 f0 (L ⊘ lit 20 1) massive) in
      record s { world = c.set_ang_vel_parent f0 f0 f0 placed }

  unfoldable pub set_hydro_clip : F → FlapSim T F W V K → FlapSim T F W V K
  set_hydro_clip x s = record s {
    hydro_torque_clip_nm = x;
    hydro_adapter = reclip x s.hydro_adapter;
  }

  -- A write of the value of `as_double()`; none is the exception.
  unfoldable pub write_value :
      Option F
      → (F → FlapSim T F W V K → FlapSim T F W V K)
      → Flags
      → FlapSim T F W V K
      → Option (FlapSim T F W V K × Flags)
  write_value none write flags s = none
  write_value (some x) write flags s = some (write x s, flags)

  unfoldable pub write_use_shadow_pid :
      Parameter F → Flags → FlapSim T F W V K → Option (FlapSim T F W V K × Flags)
  write_use_shadow_pid p flags s = elim p.as_bool [
    | none ↦ none
    | some b ↦ some (record s { use_shadow_pid = b }, record flags { shadow_pid_changed = true })
  ]

  -- The tail of the chain of tests, from the HIL parameters on.
  unfoldable pub apply_hil :
      Parameter F → Flags → FlapSim T F W V K → Option (FlapSim T F W V K × Flags)
  apply_hil p flags s = elim (find_setting hil_settings p.name) [
    | some e ↦ write_value p.as_double e.write flags s
    | none ↦
        if str_eq p.name "hydro_torque_clip_nm"
        then write_value p.as_double set_hydro_clip flags s
        else some (s, flags)
  ]

  unfoldable pub apply_shadow :
      Parameter F → Flags → FlapSim T F W V K → Option (FlapSim T F W V K × Flags)
  apply_shadow p flags s =
      if str_eq p.name "use_shadow_pid"
      then write_use_shadow_pid p flags s
      else if has_shadow_prefix p.name
      then some (s, record flags { shadow_pid_changed = true })
      else apply_hil p flags s

  unfoldable pub apply_one :
      Parameter F → Flags → FlapSim T F W V K → Option (FlapSim T F W V K × Flags)
  apply_one p flags s = elim (find_setting geometry_settings p.name) [
    | some e ↦ write_value p.as_double e.write (record flags { body_needs_update = true }) s
    | none ↦ elim (find_setting joint_settings p.name) [
      | some e ↦ write_value p.as_double e.write flags s
      | none ↦ apply_shadow p flags s
    ]
  ]

  -- The updates after the loop.
  unfoldable pub finish_apply : ⦃c : Chrono W F⦄ → Flags → FlapSim T F W V K → FlapSim T F W V K
  finish_apply flags s =
      let updated = if flags.body_needs_update then update_flap_inertia s else s in
      if flags.shadow_pid_changed
      then record updated { shadow_pid = (read_shadow_params updated.store updated.shadow_pid).0 }
      else updated

  unfoldable pub apply_each :
      ⦃c : Chrono W F⦄ → List (Parameter F) → Flags → FlapSim T F W V K → FlapSim T F W V K
  apply_each [] flags s = finish_apply flags s
  apply_each (p ∷ ps) flags s = elim (apply_one p flags s) [
    | none ↦ s
    | some (s', flags') ↦ apply_each ps flags' s'
  ]

  unfoldable pub on_apply_parameters :
      ⦃c : Chrono W F⦄ → List (Parameter F) → FlapSim T F W V K → FlapSim T F W V K
  on_apply_parameters ps s =
      apply_each ps (record { body_needs_update = false; shadow_pid_changed = false }) s

  -- A request to set parameters: the validation, the store, and the apply callback.
  unfoldable pub set_parameters :
      ⦃c : Chrono W F⦄ → List (Parameter F) → FlapSim T F W V K → FlapSim T F W V K
  set_parameters ps s = elim (on_validate_parameters ps) [
    | accepted ↦ on_apply_parameters ps (record s { store = put_parameters ps s.store })
    | rejected reason ↦ s
    | threw ↦ s
  ]
