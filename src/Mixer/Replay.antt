-- ===== src/Mixer/Replay.antt =====
-- The mixer's output as a function of its history: the list of everything that has reached the node,
-- read without a state.
use marine_robotics_hil_sea.Base.{
  ◌≡◌, refl, Bool, Option, none, some, List, [], ◌∷◌, ◌++◌, String, str_eq, if◌then◌else◌,
}
use marine_robotics_hil_sea.Float.{Double, ◌⊕◌, ◌<?◌, neg, f0, clamp}
use marine_robotics_hil_sea.Ros.{Clock, Parameter, accepted}
use marine_robotics_hil_sea.Mixer.Defs.{
  Mixer, Event, pid_message, load_message, enable_load_request, parameters, on_validate_parameters,
}

-- The last element, or the value before the list.
abbrev pub last_or : {A : Type 0} → A → List A → A
last_or x [] = x
last_or x (y ∷ ys) = last_or y ys

pub last_or-++ :
    {A : Type 0} (x : A) (ys zs : List A) → last_or x (ys ++ zs) ≡ last_or (last_or x ys) zs
last_or-++ x [] zs = refl
last_or-++ x (y ∷ ys) zs = last_or-++ y ys zs

module _ {T F : Type 0} where
  -- The PID torques that have arrived with their times; an empty array is none.
  abbrev pub pid_torques : List (Event T F) → List (Option (F × T))
  pid_torques [] = []
  pid_torques (pid_message (tau ∷ _) now ∷ es) = some (tau, now) ∷ pid_torques es
  pid_torques (_ ∷ es) = pid_torques es

  abbrev pub loads : List (Event T F) → List (Option (F × T))
  loads [] = []
  loads (load_message tau now ∷ es) = some (tau, now) ∷ loads es
  loads (_ ∷ es) = loads es

module _ {F : Type 0} where
  -- What a batch of parameters assigns: up to a switch that is not a Boolean.
  abbrev pub assigned : List (Parameter F) → List (Parameter F)
  assigned [] = []
  assigned (p ∷ ps) =
      let rest = assigned ps in
      if str_eq p.name "enable_load"
      then elim p.as_bool [ none ↦ [] | some _ ↦ p ∷ rest ]
      else p ∷ rest

  -- The values that a list of parameters gives to a name.
  abbrev pub doubles : String → List (Parameter F) → List F
  doubles key [] = []
  doubles key (p ∷ ps) =
      let rest = doubles key ps in
      if str_eq p.name key then elim p.as_double [ none ↦ rest | some x ↦ x ∷ rest ] else rest

  abbrev pub bools : String → List (Parameter F) → List Bool
  bools key [] = []
  bools key (p ∷ ps) =
      let rest = bools key ps in
      if str_eq p.name key then elim p.as_bool [ none ↦ rest | some x ↦ x ∷ rest ] else rest

module _ {F : Type 0} ⦃d : Double F⦄ where
  -- A batch that the validation refuses assigns nothing.
  abbrev pub assigned_of : List (Parameter F) → List (Parameter F)
  assigned_of ps = elim (on_validate_parameters ps) [ accepted ↦ assigned ps | _ ↦ [] ]

module _ {T F : Type 0} ⦃d : Double F⦄ where
  -- The values of a parameter over the history.
  abbrev pub values : String → List (Event T F) → List F
  values key [] = []
  values key (parameters ps ∷ es) = doubles key (assigned_of ps) ++ values key es
  values key (_ ∷ es) = values key es

  -- The load switch is both a parameter and a service.
  abbrev pub switches : List (Event T F) → List Bool
  switches [] = []
  switches (enable_load_request on ∷ es) = on ∷ switches es
  switches (parameters ps ∷ es) = bools "enable_load" (assigned_of ps) ++ switches es
  switches (_ ∷ es) = switches es

  module _ ⦃clock : Clock T F⦄ where
    -- The last torque of an input, unless there is none or its age is above the timeout.
    abbrev pub fresh_or_zero : T → F → Option (F × T) → F
    fresh_or_zero now timeout none = f0
    fresh_or_zero now timeout (some (tau, stamp)) =
        if timeout <? clock.since now stamp then f0 else tau

    -- The torque to publish at a time after a history.
    abbrev pub output_of : Mixer T F → List (Event T F) → T → F
    output_of s es now =
        let clip = last_or s.hard_clip_nm (values "hard_clip_nm" es) in
        let pid =
          fresh_or_zero now (last_or s.pid_timeout_s (values "pid_timeout_s" es))
            (last_or none (pid_torques es)) in
        let load =
          fresh_or_zero now (last_or s.load_timeout_s (values "load_timeout_s" es))
            (last_or none (loads es)) in
        clamp (pid ⊕ (if last_or s.enable_load (switches es) then load else f0)) (neg clip) clip
