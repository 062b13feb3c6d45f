-- ===== src/Flap/Construct.antt =====
-- The constructor of the flap node: the resolution of the mode, the reads of the parameters, the
-- derived timing, the simulation and the adapter. Reads that only name topics are left out.
use marine_robotics_hil_sea.Base.{
  Bool, true, false, ◌||◌, Option, none, some, List, [], ◌∷◌, String, str_eq, if◌then◌else◌,
}
use marine_robotics_hil_sea.Base.Int.{pos}
use marine_robotics_hil_sea.Chrono.{Chrono}
use marine_robotics_hil_sea.Flap.Apply.{read_settings, read_shadow_params, update_flap_inertia}
use marine_robotics_hil_sea.Flap.Defs.{FlapNode}
use marine_robotics_hil_sea.Flap.State.{
  FlapSim, Setting, set, geometry_settings, joint_settings, hil_settings,
}
use marine_robotics_hil_sea.Flap.Store.{get_double, get_string, get_bool, get_int}
use marine_robotics_hil_sea.Float.{Double, ◌⊘◌, ◌<?◌, f0, f1, lit}
use marine_robotics_hil_sea.Hydro
use marine_robotics_hil_sea.Hydro.{
  Adapter, SeaStack, SeaStackHydroParams, Made, refused, made, max_ℤ,
}
use marine_robotics_hil_sea.Ros.{Clock, Parameter}
use marine_robotics_hil_sea.Shadow.{ShadowPidController}

infixl 5 ◌>>=◌
abbrev ◌>>=◌ : {A B : Type 0} → Option A → (A → Option B) → Option B
none >>= f = none
some a >>= f = f a

abbrev completed : {S : Type 0} → S × Bool → Option S
completed (s, true) = some s
completed (s, false) = none

-- `mode` is taken before the legacy `sil_mode`.
unfoldable pub resolve_mode : String → Bool → String
resolve_mode mode_param sil_mode =
    if str_eq mode_param ""
    then (if sil_mode then "sil" else "parallel")
    else if str_eq mode_param "sil" || str_eq mode_param "parallel" || str_eq mode_param "hil"
    then mode_param
    else "parallel"

module _ {T F W V K : Type 0} ⦃d : Double F⦄ where
  -- The members as they are initialised before the constructor's body, where `epoch` is the time
  -- that `rclcpp::Time` starts with.
  unfoldable pub initial_members :
      T → ShadowPidController F → List (Parameter F) → W → FlapSim T F W V K
  initial_members epoch shadow_pid store world =
      let hil : FlapNode T F = record {
        joint_name = "motor_joint";
        publish_dt = lit 1 2;
        start_time = epoch;
        hil_constant_load_nm = lit 1 1;
        hil_virtual_stiffness = f0;
        hil_virtual_damping = f0;
        hil_quadratic_drag = f0;
        hil_wave_amp_nm = f0;
        hil_wave_omega_rad_s = f0;
        hil_torque_clip_nm = lit 3 1;
        hil_feedback_timeout_s = lit 1 1;
        hil_ramp_time_s = lit 10 1;
        hil_engaged = false;
        hil_ramp_start_time = f0;
        hydro_engaged = false;
        clip_engaged_history = [];
        hw_pos = f0;
        hw_vel = f0;
        hw_stamp = epoch;
        hw_received = false;
        sim_position = f0;
        sim_velocity = f0;
        sim_acceleration = f0;
      } in
      record {
        hil = hil;
        mode = "parallel";
        use_shadow_pid = true;
        shadow_sync_trajectory = true;
        rate_hz = lit 1000 1;
        solver_rate_hz = lit 10000 1;
        solver_dt = lit 1 3;
        substeps = pos 10;
        flap_length = lit 30 2;
        flap_width = lit 30 2;
        flap_mass = lit 21 2;
        joint_damping = f0;
        joint_stiffness = lit 712441 6;
        bearing_friction = lit 4 1;
        coulomb_friction = f0;
        shadow_ext_pos_ref = f0;
        shadow_ext_vel_ref = f0;
        shadow_pos_ref_received = false;
        shadow_vel_ref_received = false;
        shadow_pid = shadow_pid;
        latest_torque = f0;
        hydro_torque_clip_nm = lit 2 1;
        hydro_adapter = none;
        store = store;
        world = world;
      }

  unfoldable pub timing_settings : List (Setting (FlapSim T F W V K) F)
  timing_settings =
      set "rate_hz" (λ x s. record s { rate_hz = x })
      ∷ set "solver_rate_hz" (λ x s. record s { solver_rate_hz = x })
      ∷ []

  unfoldable pub hydro_settings : List (Setting (FlapSim T F W V K) F)
  hydro_settings = set "hydro_torque_clip_nm" (λ x s. record s { hydro_torque_clip_nm = x }) ∷ []

  -- In the mode hil the shadow controller is off.
  unfoldable pub force_hil : FlapSim T F W V K → FlapSim T F W V K
  force_hil s =
      if str_eq s.mode "hil"
      then record s { use_shadow_pid = false; shadow_sync_trajectory = false }
      else s

  -- `publish_dt_`, `solver_dt_` and `substeps_`.
  unfoldable pub derive_timing : FlapSim T F W V K → FlapSim T F W V K
  derive_timing s =
      let publish_dt = if f0 <? s.rate_hz then f1 ⊘ s.rate_hz else lit 1 2 in
      let solver_dt = if f0 <? s.solver_rate_hz then f1 ⊘ s.solver_rate_hz else lit 1 3 in
      record s {
        hil = record s.hil { publish_dt = publish_dt };
        solver_dt = solver_dt;
        substeps = max_ℤ (pos 1) (d.round_int (publish_dt ⊘ solver_dt));
      }

  -- The flag and the gains of the shadow controller.
  unfoldable pub read_shadow : List (Parameter F) → FlapSim T F W V K → Option (FlapSim T F W V K)
  read_shadow store s = do
    use_shadow_pid ← get_bool store "use_shadow_pid"
    sync ← get_bool store "shadow_sync_trajectory"
    c ← completed (read_shadow_params store s.shadow_pid)
    some (record s {
      use_shadow_pid = use_shadow_pid;
      shadow_sync_trajectory = sync;
      shadow_pid = c;
    })

  -- The reads up to the parameters of SEA-Stack.
  unfoldable pub read_members : List (Parameter F) → FlapSim T F W V K → Option (FlapSim T F W V K)
  read_members store s = do
    mode_param ← get_string store "mode"
    sil_mode ← get_bool store "sil_mode"
    joint_name ← get_string store "joint_name"
    timed ← completed (read_settings timing_settings store s)
    sized ← completed (read_settings geometry_settings store timed)
    jointed ← completed (read_settings joint_settings store sized)
    shadowed ← read_shadow store jointed
    loaded ← completed (read_settings hil_settings store shadowed)
    engaged ← get_bool store "hil_engaged_default"
    clipped ← completed (read_settings hydro_settings store loaded)
    hydro_engaged ← get_bool store "hydro_engaged_default"
    some (record clipped {
      mode = resolve_mode mode_param sil_mode;
      hil = record clipped.hil {
        joint_name = joint_name;
        hil_engaged = engaged;
        hydro_engaged = hydro_engaged;
      };
    })

  unfoldable pub read_hydro_params :
      List (Parameter F) → FlapSim T F W V K → Option (SeaStackHydroParams F)
  read_hydro_params store s = do
    h5_path ← get_string store "seastack_h5_path"
    wave_hs_m ← get_double store "wave_hs_m"
    wave_tp_s ← get_double store "wave_tp_s"
    wave_seed ← get_int store "wave_seed"
    wave_n_components ← get_int store "wave_n_components"
    some (record {
      h5_path = h5_path;
      wave_hs_m = wave_hs_m;
      wave_tp_s = wave_tp_s;
      wave_seed = wave_seed;
      wave_n_components = wave_n_components;
      torque_clip_nm = s.hydro_torque_clip_nm;
    })

  -- The adapter that was made; an exception of its constructor leaves the node without one.
  unfoldable pub attach : Made W V K F → FlapSim T F W V K → FlapSim T F W V K
  attach (refused e) s = s
  attach (made a w) s = record s { hydro_adapter = some a; world = w }

  -- The end of the constructor: the simulation, the adapter, and the times.
  unfoldable pub start :
      {D : Type 0}
      → ⦃c : Chrono W F⦄ → ⦃clock : Clock T F⦄ → SeaStack D V K F
      → (String → Bool)
      → T
      → SeaStackHydroParams F
      → FlapSim T F W V K
      → FlapSim T F W V K
  start ⦃clock = clock⦄ lib file_exists now p s =
      let built = update_flap_inertia (derive_timing (force_hil s)) in
      let hydro =
        if str_eq p.h5_path ""
        then built
        else attach (Hydro.construct lib true true file_exists p built.world) built in
      record hydro {
        hil = record hydro.hil { start_time = now; hil_ramp_start_time = clock.seconds now };
      }

  -- The constructor; none is the exception of an accessor.
  unfoldable pub construct :
      {D : Type 0}
      → ⦃c : Chrono W F⦄ → ⦃clock : Clock T F⦄ → SeaStack D V K F
      → (String → Bool)
      → (epoch now : T) → ShadowPidController F
      → List (Parameter F)
      → W
      → Option (FlapSim T F W V K)
  construct lib file_exists epoch now shadow_pid store world = do
    s ← read_members store (initial_members epoch shadow_pid store world)
    p ← read_hydro_params store s
    some (start lib file_exists now p s)
