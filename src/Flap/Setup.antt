-- ===== src/Flap/Setup.antt =====
-- What the constructor of the flap node leaves.
use marine_robotics_hil_sea.Base.{
  ℕ, suc, ◌≤◌, ◌≡◌, refl, if◌then◌else◌, ◌⊎◌, Bool, true, false, Option, none, some, String, str_eq,
  arith,
}
use marine_robotics_hil_sea.Base.Int.{pos}
use marine_robotics_hil_sea.Chrono.{Chrono}
use marine_robotics_hil_sea.Flap.Apply.{
  update_flap_inertia, read_settings, read_gains, read_shadow_params,
}
use marine_robotics_hil_sea.Flap.Construct.{
  resolve_mode, force_hil, derive_timing, start, construct, read_members, read_hydro_params,
  initial_members, read_shadow, timing_settings, hydro_settings,
}
use marine_robotics_hil_sea.Flap.Simulate.{
  substep_loop, torque_command, adapter_step, hil_hydro, pass,
}
use marine_robotics_hil_sea.Flap.State.{
  FlapSim, geometry_settings, joint_settings, hil_settings, shadow_settings,
}
use marine_robotics_hil_sea.Flap.Store.{
  get_parameter, get_string, get_bool, get_double, get_int, declared,
}
use marine_robotics_hil_sea.Flap.Validation.{is_valid_control_mode}
use marine_robotics_hil_sea.Flap.Tuning.{IsValid, AdapterClipped}
use marine_robotics_hil_sea.Float.{Double, IsIeee, ◌<?◌, ◌≤?◌, f0, lit}
use marine_robotics_hil_sea.Hydro
use marine_robotics_hil_sea.Hydro.{Coupling, SeaStack}
use marine_robotics_hil_sea.Ros.{Clock}
use marine_robotics_hil_sea.Shadow.{ShadowPidController}

abbrev pub constructed : {S : Type 0} → Option S → S → S
constructed none s = s
constructed (some s) other = s

abbrev pub IsMode : String → Type 0
IsMode m = (m ≡ "sil") ⊎ (m ≡ "parallel") ⊎ (m ≡ "hil")

module _ {F : Type 0} ⦃d : Double F⦄ (laws : IsIeee F) where
  lit_not_le : (m k : ℕ) → k ≤ 20 → (lit {F = F} (suc m) k ≤? f0) ≡ false
  lit_not_le m k h = ground (arith, laws.lit_pos m k h, laws.not_lt_of_le (lit (suc m) k) f0)

  lit_not_lt : (m k : ℕ) → k ≤ 20 → (lit {F = F} (suc m) k <? f0) ≡ false
  lit_not_lt m k h =
      ground (arith, laws.lit_pos m k h, laws.lt_trans f0 (lit (suc m) k) f0, laws.lt_irrefl f0)

module _ {T F W V K : Type 0} ⦃d : Double F⦄ where
  module _ ⦃c : Chrono W F⦄ ⦃clock : Clock T F⦄ where
    module _ ⦃k : Coupling W V K F⦄ where
      -- The world that a pass in the modes sil and parallel starts its substeps on.
      abbrev pub coupled_world : FlapSim T F W V K → T → W
      coupled_world s now =
          let t = clock.since now s.hil.start_time in
          (if s.hil.hydro_engaged
            then adapter_step s.hydro_adapter t s.world s
            else (s, none)).0.world

      -- What a pass does to the world: none or at least one substep, by the mode.
      abbrev pub PassSubsteps : FlapSim T F W V K → T → Type 0
      PassSubsteps s now =
          ((str_eq s.mode "hil" ≡ true) × ((pass s now).0.world ≡ (hil_hydro s now).0.world))
          ⊎ ((n : ℕ) × (s.substeps ≡ pos (suc n))
              × ((pass s now).0.world
                  ≡ substep_loop (suc n) s (torque_command s (clock.since now s.hil.start_time)).2
                      (coupled_world s now)))

    -- The constructor succeeds on the declared defaults, and leaves valid members.
    construct-declared-IsValid :
        {D : Type 0} (laws : IsIeee F) (lib : SeaStack D V K F) (file_exists : String → Bool)
        (epoch now : T) (shadow_pid : ShadowPidController F) (w : W)
        → (s : FlapSim T F W V K) × (construct lib file_exists epoch now shadow_pid declared w
            ≡ some s)
          × IsValid s
    unfolding construct read_members read_hydro_params initial_members read_shadow
        read_shadow_params read_gains read_settings timing_settings hydro_settings geometry_settings
        joint_settings hil_settings shadow_settings declared get_string get_bool get_double get_int
        get_parameter is_valid_control_mode resolve_mode start update_flap_inertia derive_timing
        force_hil AdapterClipped
    construct-declared-IsValid laws lib file_exists epoch now shadow_pid w = (
      constructed (construct lib file_exists epoch now shadow_pid declared w)
          (initial_members epoch shadow_pid declared w),
      refl,
      ground (
        arith,
        laws.lt_irrefl f0,
        lit_not_le laws 2 1 (omega arith),
        lit_not_le laws 0 1 (omega arith),
        lit_not_le laws 1 1 (omega arith),
        lit_not_le laws 29 2 (omega arith),
        lit_not_le laws 196 3 (omega arith),
        lit_not_lt laws 312440 6 (omega arith),
        lit_not_lt laws 0 2 (omega arith),
        lit_not_lt laws 9 1 (omega arith),
      ),
    )
