-- ===== src/Mixer/History.antt =====
-- The mixer's state and ticks after a history.
use marine_robotics_hil_sea.Base.{
  ◌≡◌, inl, inr, arith, Option, none, some, Option-cases, List, [], ◌∷◌, if◌then◌else◌,
}
use marine_robotics_hil_sea.Float.{Double}
use marine_robotics_hil_sea.Ros.{Clock, Parameter, accepted, validate_each}
use marine_robotics_hil_sea.Mixer.Defs.{
  Mixer, Settings, Event, pid_message, load_message, enable_load_request, parameters, timer,
  construct, on_pid, on_load, on_enable_load, on_validate_parameters, validate_one, apply_one,
  on_apply_parameters, set_parameters, effective_pid, effective_load, tick, step, run,
}
use marine_robotics_hil_sea.Mixer.Replay.{
  last_or, last_or-++, pid_torques, loads, assigned, doubles, bools, assigned_of, values, switches,
  output_of,
}

module _ {T F : Type 0} ⦃d : Double F⦄ where
  -- The input that a state holds, if it has received one.
  abbrev last_pid : Mixer T F → Option (F × T)
  last_pid s = if s.pid_received then some (s.tau_pid, s.pid_last_stamp) else none

  abbrev last_load : Mixer T F → Option (F × T)
  last_load s = if s.load_received then some (s.tau_hydro, s.load_last_stamp) else none

  -- The four parameters of a state after a list of assignments.
  pub record IsAssigned (s : Mixer T F) (ps : List (Parameter F)) (s' : Mixer T F) : Type 0 where
    clip : s'.hard_clip_nm ≡ last_or s.hard_clip_nm (doubles "hard_clip_nm" ps)
    pid_timeout : s'.pid_timeout_s ≡ last_or s.pid_timeout_s (doubles "pid_timeout_s" ps)
    load_timeout : s'.load_timeout_s ≡ last_or s.load_timeout_s (doubles "load_timeout_s" ps)
    switch : s'.enable_load ≡ last_or s.enable_load (bools "enable_load" ps)
    pub pid_same : s'.tau_pid ≡ s.tau_pid
    pid_stamp_same : s'.pid_last_stamp ≡ s.pid_last_stamp
    pid_received_same : s'.pid_received ≡ s.pid_received
    pub load_same : s'.tau_hydro ≡ s.tau_hydro
    load_stamp_same : s'.load_last_stamp ≡ s.load_last_stamp
    load_received_same : s'.load_received ≡ s.load_received

  apply_one-IsAssigned :
      (p : Parameter F) (s : Mixer T F) {s' : Mixer T F}
      → validate_one p ≡ accepted
      → apply_one p s ≡ some s'
      → IsAssigned s (p ∷ []) s'
  unfolding apply_one validate_one
  apply_one-IsAssigned p s ok h = ground arith

  IsAssigned-[] : (s : Mixer T F) → IsAssigned s [] s
  IsAssigned-[] s = ground arith

  IsAssigned-∷ :
      (p : Parameter F) (ps : List (Parameter F)) (s s' t : Mixer T F)
      → IsAssigned s (p ∷ []) s'
      → IsAssigned s' ps t
      → IsAssigned s (p ∷ ps) t
  IsAssigned-∷ p ps s s' t one rest = ground arith

  -- An accepted parameter fails only as a switch that is not a Boolean, and that ends the batch.
  assigned-none :
      (p : Parameter F) (ps : List (Parameter F)) (s : Mixer T F)
      → validate_one p ≡ accepted
      → apply_one p s ≡ none
      → assigned (p ∷ ps) ≡ []
  unfolding apply_one validate_one
  assigned-none p ps s ok h = ground arith

  assigned-some :
      (p : Parameter F) (ps : List (Parameter F)) (s : Mixer T F) {s' : Mixer T F}
      → apply_one p s ≡ some s'
      → assigned (p ∷ ps) ≡ p ∷ assigned ps
  unfolding apply_one
  assigned-some p ps s h = ground arith

  on_apply_parameters-IsAssigned :
      (ps : List (Parameter F)) (s : Mixer T F)
      → on_validate_parameters ps ≡ accepted
      → IsAssigned s (assigned ps) (on_apply_parameters ps s)
  unfolding on_apply_parameters on_validate_parameters validate_each
  on_apply_parameters-IsAssigned [] s ok = IsAssigned-[] s
  on_apply_parameters-IsAssigned (p ∷ ps) s ok = elim (Option-cases (apply_one p s)) [
    | inl e ↦ ground (arith, assigned-none p ps s (ground arith) e, IsAssigned-[] s)
    | inr (s', e) ↦
        let one = apply_one-IsAssigned p s {s' = s'} (ground arith) e in
        let rest = on_apply_parameters-IsAssigned ps s' (ground arith) in
        let all = IsAssigned-∷ p (assigned ps) s s' (on_apply_parameters ps s') one rest in
        ground (arith, assigned-some p ps s {s' = s'} e, all)
  ]

  pub set_parameters-IsAssigned :
      (ps : List (Parameter F)) (s : Mixer T F)
      → IsAssigned s (assigned_of ps) (set_parameters ps s)
  unfolding set_parameters
  set_parameters-IsAssigned ps s =
      ground (arith, on_apply_parameters-IsAssigned ps s, IsAssigned-[] s)

  module _ ⦃clock : Clock T F⦄ where
    -- What the fields of a state are after a history.
    record IsReplay (s : Mixer T F) (es : List (Event T F)) (t : Mixer T F) : Type 0 where
      clip : t.hard_clip_nm ≡ last_or s.hard_clip_nm (values "hard_clip_nm" es)
      pid_timeout : t.pid_timeout_s ≡ last_or s.pid_timeout_s (values "pid_timeout_s" es)
      load_timeout : t.load_timeout_s ≡ last_or s.load_timeout_s (values "load_timeout_s" es)
      switch : t.enable_load ≡ last_or s.enable_load (switches es)
      pid : last_pid t ≡ last_or (last_pid s) (pid_torques es)
      load : last_load t ≡ last_or (last_load s) (loads es)

    IsReplay-parameters :
        (ps : List (Parameter F)) (es : List (Event T F)) (s s' t : Mixer T F)
        → IsAssigned s (assigned_of ps) s'
        → IsReplay s' es t
        → IsReplay s (parameters ps ∷ es) t
    IsReplay-parameters ps es s s' t a r = ground (
      arith,
      last_or-++ s.hard_clip_nm (doubles "hard_clip_nm" (assigned_of ps))
          (values "hard_clip_nm" es),
      last_or-++ s.pid_timeout_s (doubles "pid_timeout_s" (assigned_of ps))
          (values "pid_timeout_s" es),
      last_or-++ s.load_timeout_s (doubles "load_timeout_s" (assigned_of ps))
          (values "load_timeout_s" es),
      last_or-++ s.enable_load (bools "enable_load" (assigned_of ps)) (switches es),
    )

    run-IsReplay : (s : Mixer T F) (es : List (Event T F)) → IsReplay s es (run s es)
    unfolding run step on_pid on_load on_enable_load
    run-IsReplay s [] = ground arith
    run-IsReplay s (pid_message [] now ∷ es) = ground (arith, run-IsReplay s es)
    run-IsReplay s (pid_message (tau ∷ _) now ∷ es) =
        ground (arith, run-IsReplay (on_pid s (tau ∷ _) now) es)
    run-IsReplay s (load_message tau now ∷ es) = ground (arith, run-IsReplay (on_load s tau now) es)
    run-IsReplay s (enable_load_request on ∷ es) =
        ground (arith, run-IsReplay (on_enable_load s on) es)
    run-IsReplay s (parameters ps ∷ es) =
        let s' = set_parameters ps s in
        IsReplay-parameters ps es s s' _ (set_parameters-IsAssigned ps s) (run-IsReplay s' es)
    run-IsReplay s (timer now ∷ es) = ground (arith, run-IsReplay s es)

    -- After any history of messages, service requests, parameter changes and ticks from the
    -- constructor on, a tick publishes what the history says: the sum, clipped, of the last PID torque
    -- and the last load, each 0.0 if there is none or it is older than the timeout last set, the load
    -- also if the switch was last turned off; the clip is the one last set. What a refused batch of
    -- parameters assigns does not count, and an accepted one counts up to an exception.
    pub tick-output_of :
        (epoch now : T) (p : Settings F) (es : List (Event T F))
        → tick (run (construct epoch p) es) now ≡ output_of (construct epoch p) es now
    unfolding tick effective_pid effective_load construct
    tick-output_of epoch now p es = ground (arith, run-IsReplay (construct epoch p) es)
