-- ===== src/Mixer/Defs.antt =====
-- `class HilTorqueMixerNode`: its state, the callbacks, the parameter handling and the timer's tick.
-- The topic names only reach rclcpp and are left out.
use marine_robotics_hil_sea.Base.{
  Bool, true, false, not, ◌||◌, Option, none, some, List, [], ◌∷◌, String, str_eq, if◌then◌else◌,
}
use marine_robotics_hil_sea.Float.{Double, ◌⊕◌, ◌<?◌, ◌≤?◌, neg, f0, lit, clamp}
use marine_robotics_hil_sea.Ros.{
  Clock, Parameter, is_double, contains, Verdict, accepted, rejected, threw, immutable,
  must_be_positive, validate_each,
}

pub record Mixer (T F : Type 0) : Type 0 where
  pub output_rate_hz : F
  pub hard_clip_nm : F
  pub pid_timeout_s : F
  pub load_timeout_s : F
  pub enable_load : Bool
  pub tau_pid : F
  pub tau_hydro : F
  pub pid_last_stamp : T
  pub load_last_stamp : T
  pub pid_received : Bool
  pub load_received : Bool

-- The parameters that the constructor reads.
pub record Settings (F : Type 0) : Type 0 where
  pub output_rate_hz : F
  pub hard_clip_nm : F
  pub pid_timeout_s : F
  pub load_timeout_s : F
  pub enable_load : Bool

-- What reaches the node while it runs.
pub data Event (T F : Type 0) : Type 0 where
  pid_message : List F → T → Event T F
  load_message : F → T → Event T F
  enable_load_request : Bool → Event T F
  parameters : List (Parameter F) → Event T F
  timer : T → Event T F

abbrev immutable_params : List String
immutable_params = "pid_torque_topic" ∷ "load_torque_topic" ∷ "output_topic" ∷ "output_rate_hz" ∷ []

module _ {F : Type 0} ⦃d : Double F⦄ where
  -- A value that is not positive is replaced by the default.
  abbrev or_default : F → F → F
  or_default x default = if x ≤? f0 then default else x

  -- `param.get_type() != PARAMETER_DOUBLE || param.as_double() <= 0.0`, with the exception.
  abbrev pub check_positive : Parameter F → Verdict
  check_positive p =
      if is_double p.type
      then elim p.as_double [
        | none ↦ threw
        | some x ↦ if x ≤? f0 then rejected (must_be_positive p.name) else accepted
      ]
      else rejected (must_be_positive p.name)

  unfoldable pub validate_one : Parameter F → Verdict
  validate_one p =
      if contains immutable_params p.name
      then rejected (immutable p.name)
      else if str_eq p.name "hard_clip_nm"
          || str_eq p.name "pid_timeout_s"
          || str_eq p.name "load_timeout_s"
      then check_positive p
      else accepted

  unfoldable pub on_validate_parameters : List (Parameter F) → Verdict
  on_validate_parameters = validate_each validate_one

  -- The destructor's last command.
  unfoldable pub shutdown : List F
  shutdown = f0 ∷ []

module _ {T F : Type 0} ⦃d : Double F⦄ where
  unfoldable pub construct : T → Settings F → Mixer T F
  construct epoch p = record {
    output_rate_hz = or_default p.output_rate_hz (lit 200 0);
    hard_clip_nm = or_default p.hard_clip_nm (lit 5 1);
    pid_timeout_s = or_default p.pid_timeout_s (lit 2 1);
    load_timeout_s = or_default p.load_timeout_s (lit 2 1);
    enable_load = p.enable_load;
    tau_pid = f0;
    tau_hydro = f0;
    pid_last_stamp = epoch;
    load_last_stamp = epoch;
    pid_received = false;
    load_received = false;
  }

  -- The subscription to the PID torque: an empty array is ignored.
  unfoldable pub on_pid : Mixer T F → List F → T → Mixer T F
  on_pid s [] now = s
  on_pid s (tau ∷ _) now = record s { tau_pid = tau; pid_last_stamp = now; pid_received = true }

  unfoldable pub on_load : Mixer T F → F → T → Mixer T F
  on_load s tau now = record s { tau_hydro = tau; load_last_stamp = now; load_received = true }

  unfoldable pub on_enable_load : Mixer T F → Bool → Mixer T F
  on_enable_load s on = record s { enable_load = on }

  -- One assignment of the post-set callback; `none` is the exception of the accessor.
  abbrev assign_if :
      {A : Type 0} → Bool → Option A → (A → Mixer T F → Mixer T F) → Mixer T F → Option (Mixer T F)
  assign_if false value write s = some s
  assign_if true none write s = none
  assign_if true (some x) write s = some (write x s)

  infixl 5 ◌>>=◌
  abbrev ◌>>=◌ : Option (Mixer T F) → (Mixer T F → Option (Mixer T F)) → Option (Mixer T F)
  none >>= f = none
  some s >>= f = f s

  unfoldable pub apply_one : Parameter F → Mixer T F → Option (Mixer T F)
  apply_one p s = do
    s ←
        assign_if (str_eq p.name "hard_clip_nm") p.as_double (λ x m. record m { hard_clip_nm = x })
          s
    s ←
        assign_if (str_eq p.name "pid_timeout_s") p.as_double
          (λ x m. record m { pid_timeout_s = x }) s
    s ←
        assign_if (str_eq p.name "load_timeout_s") p.as_double
          (λ x m. record m { load_timeout_s = x }) s
    assign_if (str_eq p.name "enable_load") p.as_bool (λ x m. record m { enable_load = x }) s

  -- The loop of the post-set callback. An exception leaves what was written before it.
  unfoldable pub on_apply_parameters : List (Parameter F) → Mixer T F → Mixer T F
  on_apply_parameters [] s = s
  on_apply_parameters (p ∷ ps) s = elim (apply_one p s) [
    | none ↦ s
    | some s' ↦ on_apply_parameters ps s'
  ]

  -- rclcpp calls the post-set callback if the validation callback accepted all parameters.
  unfoldable pub set_parameters : List (Parameter F) → Mixer T F → Mixer T F
  set_parameters ps s = elim (on_validate_parameters ps) [
    | accepted ↦ on_apply_parameters ps s
    | _ ↦ s
  ]

  module _ ⦃clock : Clock T F⦄ where
    -- `(now - stamp).seconds() > timeout`
    abbrev pub is_stale : T → T → F → Bool
    is_stale now stamp timeout = timeout <? clock.since now stamp

    unfoldable pub effective_pid : Mixer T F → T → F
    effective_pid s now =
        if not s.pid_received
        then f0
        else if is_stale now s.pid_last_stamp s.pid_timeout_s
        then f0
        else s.tau_pid

    unfoldable pub effective_load : Mixer T F → T → F
    effective_load s now =
        if s.enable_load
        then (if not s.load_received
            then f0
            else if is_stale now s.load_last_stamp s.load_timeout_s
            then f0
            else s.tau_hydro)
        else f0

    -- The torque that one tick publishes; a tick changes no state.
    unfoldable pub tick : Mixer T F → T → F
    tick s now =
        clamp (effective_pid s now ⊕ effective_load s now) (neg s.hard_clip_nm) s.hard_clip_nm

    -- The state after an event, and what the event publishes.
    unfoldable pub step : Mixer T F → Event T F → Mixer T F × List F
    step s (pid_message taus now) = (on_pid s taus now, [])
    step s (load_message tau now) = (on_load s tau now, [])
    step s (enable_load_request on) = (on_enable_load s on, [])
    step s (parameters ps) = (set_parameters ps s, [])
    step s (timer now) = (s, tick s now ∷ [])

    unfoldable pub run : Mixer T F → List (Event T F) → Mixer T F
    run s [] = s
    run s (e ∷ es) = run (step s e).0 es
