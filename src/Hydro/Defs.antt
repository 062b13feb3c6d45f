-- ===== src/Hydro/Defs.antt =====
-- `class SeaStackHydroAdapter`: the constructor with its refusals, a step, and the change of the clip.
-- SEA-Stack is an interface; what it throws is none.
use marine_robotics_hil_sea.Base.{
  ℕ, Bool, not, Option, none, some, List, [], ◌∷◌, String, str_eq, if◌then◌else◌,
}
use marine_robotics_hil_sea.Base.Int.{ℤ, pos, ltb_ℤ}
use marine_robotics_hil_sea.Chrono.{Chrono}
use marine_robotics_hil_sea.Float.{Double, ◌<?◌, ◌=?◌, f0, lit, limited}

pub record SeaStackHydroParams (F : Type 0) : Type 0 where
  pub h5_path : String
  pub wave_hs_m : F
  pub wave_tp_s : F
  pub wave_seed : ℤ
  pub wave_n_components : ℤ
  pub torque_clip_nm : F

pub record HydroStepResult (F : Type 0) : Type 0 where
  pub torque_raw_nm : F
  pub torque_clip_nm : F
  pub wave_eta_m : F
  pub was_clipped : Bool

-- `SeaStateDefinition` with its one partition.
pub record SeaState (F : Type 0) : Type 0 where
  pub type : String
  pub depth : F
  pub g : F
  pub n_omega : ℤ
  pub seed : ℤ
  pub spectrum_type : String
  pub hs : F
  pub tp : F
  pub gamma : F

-- SEA-Stack: what builds wave models V and couplers K from hydrodynamic data D,
pub record SeaStack (D V K F : Type 0) : Type 0 where
  pub read_h5_data : String → Option D
  pub water_depth : D → F
  pub gravity : D → F
  pub linear_directional : SeaState F → Option V
  pub no_wave : V
  pub build : D → V → Option K

-- and what runs them: `evaluate` gives the moments of the bodies about the y axis, the flap's
-- first, and the coupler with its history.
pub record Coupling (W V K F : Type 0) : Type 0 where
  pub evaluate : K → W → F → K × List F
  pub elevation : V → F × F × F → F → F

-- `struct Impl`; the bodies are those of the world.
pub record Adapter (V K F : Type 0) : Type 0 where
  pub wave_model : V
  pub coupler : K
  pub hydro_accum_idx : ℕ
  pub torque_clip_nm : F

-- What the constructor throws.
pub data InitError : Type 0 where
  null_system null_body empty_path : InitError
  file_not_found : String → InitError
  seastack_error : InitError

pub data Made (W V K F : Type 0) : Type 0 where
  refused : InitError → Made W V K F
  made : Adapter V K F → W → Made W V K F

-- `std::max` on `int`.
abbrev pub max_ℤ : ℤ → ℤ → ℤ
max_ℤ a b = if ltb_ℤ a b then b else a

module _ {F : Type 0} ⦃d : Double F⦄ where
  -- `impl_->torque_clip_nm = std::max(1e-9, clip_nm)`
  unfoldable pub set_torque_clip : {V K : Type 0} → F → Adapter V K F → Adapter V K F
  set_torque_clip clip_nm a = record a {
    torque_clip_nm = if lit 1 9 <? clip_nm then clip_nm else lit 1 9;
  }

  -- `body_forces[0].moment.y()`, 0.0 without a body.
  unfoldable pub first_moment : List F → F
  first_moment [] = f0
  first_moment (m ∷ ms) = m

  -- The sea state of a wave height above 0.
  unfoldable pub sea_state_of : F → F → SeaStackHydroParams F → SeaState F
  sea_state_of depth g p = record {
    type = "irregular";
    depth = depth;
    g = g;
    n_omega = max_ℤ (pos 1) p.wave_n_components;
    seed = p.wave_seed;
    spectrum_type = "jonswap";
    hs = p.wave_hs_m;
    tp = p.wave_tp_s;
    gamma = lit 33 1;
  }

module _ {D V K F : Type 0} ⦃d : Double F⦄ (s : SeaStack D V K F) where
  unfoldable pub wave_model_of : SeaStackHydroParams F → D → Option V
  wave_model_of p hydro_data =
      if f0 <? p.wave_hs_m
      then s.linear_directional (sea_state_of (s.water_depth hydro_data) (s.gravity hydro_data) p)
      else some s.no_wave

module _ {W D V K F : Type 0} ⦃d : Double F⦄ ⦃c : Chrono W F⦄ (s : SeaStack D V K F) where
  -- The coupler on the data, and the accumulator on the flap.
  unfoldable pub couple : SeaStackHydroParams F → D → V → W → Made W V K F
  couple p hydro_data wave w = elim (s.build hydro_data wave) [
    | none ↦ refused seastack_error
    | some coupler ↦
        let (idx, w') = c.add_accumulator w in
        made
          (record {
            wave_model = wave;
            coupler = coupler;
            hydro_accum_idx = idx;
            torque_clip_nm = p.torque_clip_nm;
          })
          w'
  ]

  unfoldable pub couple_data : SeaStackHydroParams F → D → W → Made W V K F
  couple_data p hydro_data w = elim (wave_model_of s p hydro_data) [
    | none ↦ refused seastack_error
    | some wave ↦ couple p hydro_data wave w
  ]

  -- The constructor: `system` and `bodies` say that the pointers are not null, `file_exists` what
  -- the file system answers.
  unfoldable pub construct :
      (system bodies : Bool) → (String → Bool) → SeaStackHydroParams F → W → Made W V K F
  construct system bodies file_exists p w =
      if not system
      then refused null_system
      else if not bodies
      then refused null_body
      else if str_eq p.h5_path ""
      then refused empty_path
      else if not (file_exists p.h5_path)
      then refused (file_not_found p.h5_path)
      else elim (s.read_h5_data p.h5_path) [
        | none ↦ refused seastack_error
        | some hydro_data ↦ couple_data p hydro_data w
      ]

module _ {W V K F : Type 0} ⦃d : Double F⦄ ⦃c : Chrono W F⦄ ⦃s : Coupling W V K F⦄ where
  -- The step at a time; the time step is not used.
  unfoldable pub step : F → F → Adapter V K F → W → (Adapter V K F × W) × HydroStepResult F
  step sim_time dt a w =
      let (coupler, moments) = s.evaluate a.coupler w sim_time in
      let raw = first_moment moments in
      let clipped = limited raw a.torque_clip_nm in
      let w' =
        c.accumulate_torque a.hydro_accum_idx f0 clipped f0
          (c.empty_accumulator a.hydro_accum_idx w) in
      (
        (record a { coupler = coupler }, w'),
        record {
          torque_raw_nm = raw;
          torque_clip_nm = clipped;
          wave_eta_m = s.elevation a.wave_model (c.position w') sim_time;
          was_clipped = not (raw =? clipped);
        },
      )
