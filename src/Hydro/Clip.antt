-- ===== src/Hydro/Clip.antt =====
-- The clip of the hydrodynamic torque over the life of an adapter.
use mathlib.Core.Path.{subst}
use marine_robotics_hil_sea.Base.{ℕ, ◌≡◌, refl, Bool, true, not, List, [], ◌∷◌, All, String, arith}
use marine_robotics_hil_sea.Chrono.{Chrono}
use marine_robotics_hil_sea.Float.{
  Double, IsIeee, ◌<?◌, ◌=?◌, f0, lit, limited, Bounded, clamp-Bounded,
}
use marine_robotics_hil_sea.Hydro.Defs.{
  SeaStackHydroParams, HydroStepResult, SeaStack, Coupling, Adapter, made, set_torque_clip, couple,
  couple_data, construct, step,
}

-- A call of the adapter: a change of the clip, or a step at a time.
pub data Call (F : Type 0) : Type 0 where
  sets_clip : F → Call F
  steps : F → F → Call F

-- A step with the clip in force, and the world before and after it.
pub record Stepped (W F : Type 0) : Type 0 where
  pub clip : F
  pub result : HydroStepResult F
  pub before : W
  pub after : W

module _ {W V K F : Type 0} ⦃d : Double F⦄ ⦃c : Chrono W F⦄ ⦃s : Coupling W V K F⦄ where
  -- The steps of a sequence of calls.
  unfoldable pub run : List (Call F) → Adapter V K F → W → List (Stepped W F)
  run [] a w = []
  run (sets_clip x ∷ calls) a w = run calls (set_torque_clip x a) w
  run (steps t dt ∷ calls) a w =
      let ((a', w'), r) = step t dt a w in
      record { clip = a.torque_clip_nm; result = r; before = w; after = w' } ∷ run calls a' w'

module _ {W F : Type 0} ⦃d : Double F⦄ ⦃c : Chrono W F⦄ where
  -- The world after a step has one torque about the pivot in the accumulator, in place of what was
  -- there: the reported one, which is neither below minus the clip nor above it. was_clipped says
  -- whether it differs from the torque that SEA-Stack asked for.
  abbrev pub IsClipped : ℕ → Stepped W F → Type 0
  IsClipped accumulator x =
      (f0 <? x.clip ≡ true)
      × Bounded x.clip x.result.torque_clip_nm
      × (x.after
          ≡ c.accumulate_torque accumulator f0 x.result.torque_clip_nm f0
              (c.empty_accumulator accumulator x.before))
      × (x.result.was_clipped ≡ not (x.result.torque_raw_nm =? x.result.torque_clip_nm))

module _ {F : Type 0} ⦃d : Double F⦄ (laws : IsIeee F) where
  -- A change of the clip installs a positive one.
  pub set_torque_clip-pos :
      {V K : Type 0} (x : F) (a : Adapter V K F)
      → (f0 <? (set_torque_clip x a).torque_clip_nm) ≡ true
  unfolding set_torque_clip
  set_torque_clip-pos x a =
      let floor = laws.lit_pos 0 9 (omega arith) in
      ground (arith, laws.lt_trans f0 (lit 1 9) x floor, floor)

  module _ {W V K : Type 0} ⦃c : Chrono W F⦄ ⦃s : Coupling W V K F⦄ where
    run-IsClipped_from :
        (calls : List (Call F)) (a : Adapter V K F) (w : W)
        → (f0 <? a.torque_clip_nm) ≡ true
        → All (IsClipped a.hydro_accum_idx) (run calls a w)
    unfolding run step limited set_torque_clip
    run-IsClipped_from [] a w h = tt
    run-IsClipped_from (sets_clip x ∷ calls) a w h =
        run-IsClipped_from calls (set_torque_clip x a) w (set_torque_clip-pos x a)
    run-IsClipped_from (steps t dt ∷ calls) a w h =
        let ((a', w'), r) = step t dt a w in
        (
          (h, clamp-Bounded laws r.torque_raw_nm a.torque_clip_nm h, refl, refl),
          run-IsClipped_from calls a' w' h,
        )

module _ {W V K D F : Type 0} ⦃d : Double F⦄ ⦃c : Chrono W F⦄ (lib : SeaStack D V K F) where
  -- An adapter starts with the clip of its parameters, on an accumulator that it has added.
  construct-members :
      (system bodies : Bool) (file_exists : String → Bool) (p : SeaStackHydroParams F) (w w' : W)
      (a : Adapter V K F)
      → construct lib system bodies file_exists p w ≡ made a w'
      → (a.torque_clip_nm ≡ p.torque_clip_nm)
        × (a.hydro_accum_idx ≡ (c.add_accumulator w).0)
        × (w' ≡ (c.add_accumulator w).1)
  unfolding construct couple_data couple
  construct-members system bodies file_exists p w w' a h = ground arith

module _ {F : Type 0} ⦃d : Double F⦄ (laws : IsIeee F) where
  -- Of an adapter that was made with a positive clip, every step leaves in the accumulator that the
  -- constructor has added exactly the torque that it reports, which lies within the clip in force, a
  -- positive one, and reports whether that differs from the torque asked for: in every sequence of
  -- steps and changes of the clip, to a negative number or to NaN included.
  pub construct-run-IsClipped :
      {W V K D : Type 0} ⦃c : Chrono W F⦄ ⦃s : Coupling W V K F⦄ (lib : SeaStack D V K F)
      (file_exists : String → Bool) (p : SeaStackHydroParams F) (w w' : W) (a : Adapter V K F)
      (calls : List (Call F))
      → (f0 <? p.torque_clip_nm) ≡ true
      → construct lib true true file_exists p w ≡ made a w'
      → All (IsClipped (c.add_accumulator w).0) (run calls a w')
  construct-run-IsClipped lib file_exists p w w' a calls h e =
      let (clip, index, world) = construct-members lib true true file_exists p w w' a e in
      subst (λ i. All (IsClipped i) (run calls a w')) index
        (run-IsClipped_from laws calls a w' (ground (arith, h, clip)))
