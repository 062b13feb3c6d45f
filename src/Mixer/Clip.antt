-- ===== src/Mixer/Clip.antt =====
-- The hard clip of the mixer: what every tick publishes, in every state that the node can reach.
use marine_robotics_hil_sea.Base.{
  ◌≡◌, true, false, inl, inr, arith, List, [], ◌∷◌, some, Option-cases,
}
use marine_robotics_hil_sea.Float.{
  Double, IsIeee, ◌⊕◌, ◌≤?◌, neg, f0, lit, is_nan, InRange, clamp-InRange, clamp_nan,
}
use marine_robotics_hil_sea.Ros.{Clock, Parameter, accepted, validate_each}
use marine_robotics_hil_sea.Mixer.Defs.{
  Mixer, Settings, Event, pid_message, load_message, enable_load_request, parameters, timer,
  construct, on_pid, on_load, on_enable_load, on_validate_parameters, validate_one, apply_one,
  on_apply_parameters, set_parameters, effective_pid, effective_load, tick, step, run,
}

module _ {T F : Type 0} ⦃d : Double F⦄ where
  -- The tests `x <= 0.0` of the constructor and of the validation do not hold of these.
  pub record IsValid (s : Mixer T F) : Type 0 where
    pub clip_pos : (s.hard_clip_nm ≤? f0) ≡ false
    pub pid_timeout_pos : (s.pid_timeout_s ≤? f0) ≡ false
    pub load_timeout_pos : (s.load_timeout_s ≤? f0) ≡ false

  -- A parameter that was accepted keeps the state valid.
  apply_one-IsValid :
      (p : Parameter F) (s : Mixer T F) {s' : Mixer T F}
      → validate_one p ≡ accepted
      → IsValid s
      → apply_one p s ≡ some s'
      → IsValid s'
  unfolding apply_one validate_one
  apply_one-IsValid p s ok v h = ground arith

  on_apply_parameters-IsValid :
      (ps : List (Parameter F)) (s : Mixer T F)
      → on_validate_parameters ps ≡ accepted
      → IsValid s
      → IsValid (on_apply_parameters ps s)
  unfolding on_apply_parameters on_validate_parameters validate_each
  on_apply_parameters-IsValid [] s ok v = v
  on_apply_parameters-IsValid (p ∷ ps) s ok v = elim (Option-cases (apply_one p s)) [
    | inl e ↦ rw (e, on_apply_parameters) v
    | inr (s', e) ↦ ground (
      arith,
      apply_one-IsValid p s {s' = s'} (ground arith) v e,
      on_apply_parameters-IsValid ps s' (ground arith),
    )
  ]

  set_parameters-IsValid :
      (ps : List (Parameter F)) (s : Mixer T F) → IsValid s → IsValid (set_parameters ps s)
  unfolding set_parameters
  set_parameters-IsValid ps s v = ground (arith, on_apply_parameters-IsValid ps s)

  module _ ⦃clock : Clock T F⦄ where
    step-IsValid : (s : Mixer T F) (e : Event T F) → IsValid s → IsValid (step s e).0
    unfolding step on_pid on_load on_enable_load
    step-IsValid s (pid_message taus now) v = ground arith
    step-IsValid s (load_message tau now) v = ground arith
    step-IsValid s (enable_load_request on) v = ground arith
    step-IsValid s (parameters ps) v = set_parameters-IsValid ps s v
    step-IsValid s (timer now) v = v

    pub run-IsValid : (s : Mixer T F) (es : List (Event T F)) → IsValid s → IsValid (run s es)
    unfolding run
    run-IsValid s [] v = v
    run-IsValid s (e ∷ es) v = run-IsValid (step s e).0 es (step-IsValid s e v)

    module _ (laws : IsIeee F) where
      pub construct-IsValid : (epoch : T) (p : Settings F) → IsValid (construct epoch p)
      unfolding construct
      construct-IsValid epoch p = ground (
        arith,
        laws.lit_pos 4 1 (omega arith),
        laws.lit_pos 1 1 (omega arith),
        laws.not_lt_of_le (lit 5 1) f0,
        laws.not_lt_of_le (lit 2 1) f0,
      )

      -- From the constructor on, whatever messages, service requests and parameter changes arrive in
      -- whatever order: the torque that a tick publishes lies between plus and minus the hard clip,
      -- if the sum of the two inputs and the clip are not NaN.
      pub run-tick_clipped :
          (epoch now : T) (p : Settings F) (es : List (Event T F))
          → is_nan (run (construct epoch p) es).hard_clip_nm ≡ false
          → is_nan (
              effective_pid (run (construct epoch p) es) now
              ⊕ effective_load (run (construct epoch p) es) now)
            ≡ false
          → InRange
              (run (construct epoch p) es).hard_clip_nm
              (tick (run (construct epoch p) es) now)
      unfolding tick
      run-tick_clipped epoch now p es clip sum =
          let s = run (construct epoch p) es in
          let v = run-IsValid (construct epoch p) es (construct-IsValid epoch p) in
          clamp-InRange laws _ s.hard_clip_nm clip v.clip_pos sum

      -- The hard clip does not stop NaN: a fresh PID torque that is NaN is published as NaN,
      -- whatever the clip and the load are.
      pub tick_nan :
          (s : Mixer T F) (now : T)
          → is_nan (effective_pid s now) ≡ true
          → is_nan (tick s now) ≡ true
      unfolding tick
      tick_nan s now h =
          let sum = laws.nan_add (effective_pid s now) (effective_load s now) h in
          rw (clamp_nan laws _ (neg s.hard_clip_nm) s.hard_clip_nm sum) sum
