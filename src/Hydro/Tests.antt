-- ===== src/Hydro/Tests.antt =====
-- Runs of the adapter on a SEA-Stack that always asks for half a newton metre.
use marine_robotics_hil_sea.Base.{
  ℕ, ◌+◌, ◌≡◌, refl, Bool, true, false, some, List, [], ◌∷◌, map, All, String,
}
use marine_robotics_hil_sea.Base.Int.{pos}
use marine_robotics_hil_sea.Float.{clamp, limited}
use marine_robotics_hil_sea.Float.Fixed.{Fixed, nan, Fixed-IsIeee, fixed_double}
use marine_robotics_hil_sea.Hydro.Defs.{
  SeaStackHydroParams, SeaStack, Coupling, Adapter, refused, made, file_not_found, set_torque_clip,
  first_moment, wave_model_of, couple, couple_data, construct, step,
}
use marine_robotics_hil_sea.Hydro.Clip.{
  Call, sets_clip, steps, run, IsClipped, construct-run-IsClipped,
}
use marine_robotics_hil_sea.Samples.{decimal, World, toy_chrono, at_rest}

abbrev pub library : SeaStack ℕ ℕ ℕ Fixed
library = record {
  read_h5_data = λ path. some 0;
  water_depth = λ h. decimal 5 0;
  gravity = λ h. decimal 981 2;
  linear_directional = λ sea. some 1;
  no_wave = 0;
  build = λ h wave. some 0;
}

-- The coupler counts its evaluations.
instance abbrev pub half : Coupling World ℕ ℕ Fixed
half = record { evaluate = λ k w t. (k + 1, decimal 5 1 ∷ []); elevation = λ wave p t. decimal 0 0 }

abbrev calm : SeaStackHydroParams Fixed
calm = record {
  h5_path = "oswec.h5";
  wave_hs_m = decimal 0 0;
  wave_tp_s = decimal 4 0;
  wave_seed = pos 42;
  wave_n_components = pos 50;
  torque_clip_nm = decimal 2 1;
}

abbrev adapter : Adapter ℕ ℕ Fixed
adapter = record { wave_model = 0; coupler = 0; hydro_accum_idx = 0; torque_clip_nm = decimal 2 1 }

abbrev pub any_file : String → Bool
any_file path = true

constructed : construct library true true any_file calm at_rest ≡ made adapter at_rest
unfolding construct couple_data wave_model_of couple
constructed = refl

no_file :
    construct library true true (λ path. false) calm at_rest ≡ refused (file_not_found "oswec.h5")
unfolding construct
no_file = refl

-- A change of the clip to NaN installs 1e-9.
abbrev calls : List (Call Fixed)
calls = steps (decimal 0 0) (decimal 1 2) ∷ sets_clip nan ∷ steps (decimal 1 2) (decimal 1 2) ∷ []

construct-run-IsClipped_example :
    All (IsClipped (toy_chrono.add_accumulator at_rest).0) (run calls adapter at_rest)
construct-run-IsClipped_example =
    construct-run-IsClipped Fixed-IsIeee library any_file calm at_rest at_rest adapter calls refl
      constructed

clipped_runs :
    map {B = Fixed × Fixed × Fixed}
      (λ x. (x.clip, x.result.torque_clip_nm, x.after.accumulated))
      (run calls adapter at_rest)
    ≡ (decimal 2 1, decimal 2 1, decimal 2 1) ∷ (decimal 1 9, decimal 1 9, decimal 1 9) ∷ []
unfolding run step set_torque_clip first_moment limited clamp
clipped_runs = refl
