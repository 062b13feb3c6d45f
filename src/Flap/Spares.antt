-- ===== src/Flap/Spares.antt =====
-- What the apply callback leaves alone: the store, the shadow controller, which
-- `read_shadow_params` fills, the mode and the measured joint state.
use marine_robotics_hil_sea.Base.{
  ◌≡◌, refl, inl, inr, true, Bool-cases, Option-cases, Option, none, some, List, [], ◌∷◌, All,
  String, str_eq, arith,
}
use mathlib.Core.Path.{subst}
use marine_robotics_hil_sea.Flap.Apply.{
  Flags, set_hydro_clip, write_value, write_use_shadow_pid, apply_hil, apply_shadow, apply_one,
  has_shadow_prefix,
}
use marine_robotics_hil_sea.Flap.State.{
  FlapSim, Setting, find_setting, geometry_settings, joint_settings, hil_settings,
}
use marine_robotics_hil_sea.Float.{Double}
use marine_robotics_hil_sea.Ros.{Parameter}

module _ {T F W V K : Type 0} where
  -- The store, the controller, the mode and the measured joint state are the same.
  abbrev pub Spared : FlapSim T F W V K → FlapSim T F W V K → Type 0
  Spared s t =
      (t.store ≡ s.store)
      × (t.shadow_pid ≡ s.shadow_pid)
      × (t.mode ≡ s.mode)
      × (t.hil.joint_name ≡ s.hil.joint_name)
      × (t.hil.hw_stamp ≡ s.hil.hw_stamp)
      × (t.hil.hw_received ≡ s.hil.hw_received)

  -- The apply callback's writes leave them alone.
  abbrev Spares : Setting (FlapSim T F W V K) F → Type 0
  Spares e = (x : F) (s : FlapSim T F W V K) → Spared s (e.write x s)

  abbrev pub SparesResult : FlapSim T F W V K → Option (FlapSim T F W V K × Flags) → Type 0
  SparesResult s none = Unit
  SparesResult s (some next) = Spared s next.0

  find_setting-Spares :
      (es : List (Setting (FlapSim T F W V K) F)) (key : String) {e : Setting (FlapSim T F W V K) F}
      → All Spares es
      → find_setting es key ≡ some e
      → Spares e
  unfolding find_setting
  find_setting-Spares [] key h found = absurd (ground arith)
  find_setting-Spares (e ∷ es) key {e = f} (h, hs) found = elim (Bool-cases (str_eq e.name key)) [
    | inl here ↦ let same : e ≡ f = ground arith in subst Spares same h
    | inr there ↦ find_setting-Spares es key {e = f} hs (ground arith)
  ]

module _ {T F W V K : Type 0} ⦃d : Double F⦄ where
  write_value-Spares :
      (o : Option F) (e : Setting (FlapSim T F W V K) F) (flags : Flags) (s : FlapSim T F W V K)
      → Spares e
      → SparesResult s (write_value o e.write flags s)
  unfolding write_value
  write_value-Spares none e flags s h = tt
  write_value-Spares (some x) e flags s h = h x s

  setting-Spares :
      (es : List (Setting (FlapSim T F W V K) F)) (p : Parameter F) (flags : Flags)
      (s : FlapSim T F W V K) {e : Setting (FlapSim T F W V K) F}
      → All Spares es
      → find_setting es p.name ≡ some e
      → SparesResult s (write_value p.as_double e.write flags s)
  setting-Spares es p flags s {e} h found =
      write_value-Spares p.as_double e flags s (find_setting-Spares es p.name {e = e} h found)

module _ (T F W V K : Type 0) where
  geometry-Spares : All Spares (geometry_settings {T = T} {F = F} {W = W} {V = V} {K = K})
  unfolding geometry_settings
  geometry-Spares = ground arith

  joint-Spares : All Spares (joint_settings {T = T} {F = F} {W = W} {V = V} {K = K})
  unfolding joint_settings
  joint-Spares = ground arith

  hil-Spares : All Spares (hil_settings {T = T} {F = F} {W = W} {V = V} {K = K})
  unfolding hil_settings
  hil-Spares = ground arith

module _ {T F W V K : Type 0} ⦃d : Double F⦄ where
  apply_hil-Spares :
      (p : Parameter F) (flags : Flags) (s : FlapSim T F W V K)
      → SparesResult s (apply_hil p flags s)
  unfolding apply_hil write_value set_hydro_clip
  apply_hil-Spares p flags s =
      elim (Option-cases
        (find_setting (hil_settings {T = T} {F = F} {W = W} {V = V} {K = K}) p.name)) [
          | inr (e, found) ↦
              rw (found, apply_hil)
                (setting-Spares hil_settings p flags s {e = e} (hil-Spares T F W V K) found)
          | inl missing ↦ elim (Bool-cases (str_eq p.name "hydro_torque_clip_nm")) [
            | inl here ↦ elim (Option-cases p.as_double) [
              | inl e ↦ rw (missing, here, e, apply_hil) tt
              | inr (x, e) ↦ rw (missing, here, e, apply_hil) (refl, refl, refl, refl, refl, refl)
            ]
            | inr there ↦ rw (missing, there, apply_hil) (refl, refl, refl, refl, refl, refl)
          ]
        ]

  apply_shadow-Spares :
      (p : Parameter F) (flags : Flags) (s : FlapSim T F W V K)
      → SparesResult s (apply_shadow p flags s)
  unfolding apply_shadow write_use_shadow_pid
  apply_shadow-Spares p flags s = elim (Bool-cases (str_eq p.name "use_shadow_pid")) [
    | inl e ↦ elim (Option-cases p.as_bool) [
      | inl f ↦ rw (e, f) tt
      | inr (b, f) ↦ rw (e, f) (refl, refl, refl, refl, refl, refl)
    ]
    | inr e ↦ elim (Bool-cases (has_shadow_prefix p.name)) [
      | inl f ↦ rw (e, f) (refl, refl, refl, refl, refl, refl)
      | inr f ↦ rw (e, f) (apply_hil-Spares p flags s)
    ]
  ]

  pub apply_one-Spares :
      (p : Parameter F) (flags : Flags) (s : FlapSim T F W V K)
      → SparesResult s (apply_one p flags s)
  unfolding apply_one
  apply_one-Spares p flags s =
      let body : Flags = record flags { body_needs_update = true } in
      elim (Option-cases
        (find_setting (geometry_settings {T = T} {F = F} {W = W} {V = V} {K = K}) p.name)) [
          | inr (e, found) ↦
              rw (found, apply_one)
                (setting-Spares geometry_settings p body s {e = e} (geometry-Spares T F W V K)
                  found)
          | inl missing ↦
              elim (Option-cases
                (find_setting (joint_settings {T = T} {F = F} {W = W} {V = V} {K = K}) p.name)) [
                  | inr (e, found) ↦
                      rw (missing, found, apply_one)
                        (setting-Spares joint_settings p flags s {e = e} (joint-Spares T F W V K)
                          found)
                  | inl other ↦ rw (missing, other, apply_one) (apply_shadow-Spares p flags s)
                ]
        ]
