-- ===== src/Mixer/Watchdog.antt =====
-- The watchdogs of the mixer: which inputs reach the published torque.
use marine_robotics_hil_sea.Base.{◌≡◌, Bool, true, false, not, ◌&&◌, arith}
use marine_robotics_hil_sea.Float.{Double, IsIeee, ◌<?◌, f0, clamp_zero}
use marine_robotics_hil_sea.Ros.{Clock}
use marine_robotics_hil_sea.Mixer.Defs.{Mixer, is_stale, effective_pid, effective_load, tick}

module _ {T F : Type 0} ⦃d : Double F⦄ ⦃clock : Clock T F⦄ where
  -- The input has arrived, and its age is not above the timeout.
  abbrev pub pid_fresh : Mixer T F → T → Bool
  pid_fresh s now = s.pid_received && not (is_stale now s.pid_last_stamp s.pid_timeout_s)

  abbrev pub load_fresh : Mixer T F → T → Bool
  load_fresh s now =
      s.enable_load && s.load_received && not (is_stale now s.load_last_stamp s.load_timeout_s)

  module _ (laws : IsIeee F) where
    -- Fail-safe: with neither input fresh and a positive hard clip the mixer publishes 0.0.
    pub tick_silent :
        (s : Mixer T F) (now : T)
        → (f0 <? s.hard_clip_nm) ≡ true
        → pid_fresh s now ≡ false
        → load_fresh s now ≡ false
        → tick s now ≡ f0
    unfolding tick effective_pid effective_load
    tick_silent s now pos pid load =
        ground (arith, laws.zero_add_zero, clamp_zero laws s.hard_clip_nm pos)
