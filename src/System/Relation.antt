-- ===== src/System/Relation.antt =====
-- The mixer, the topic of its commands and the motor's axis, interleaved in any order. The controller
-- of ros2_control (not part of the repository) writes a command of the topic as the setpoint: any
-- that was published, late, again or never.
use marine_robotics_hil_sea.Base.{ℕ, ◌≡◌, Bool, some, List, [], ◌++◌, String, get_elem?}
use marine_robotics_hil_sea.Float.{Double}
use marine_robotics_hil_sea.Mixer
use marine_robotics_hil_sea.Mixer.{Mixer, Settings}
use marine_robotics_hil_sea.Odrive.{Frame, Axis, Narrow, Junk, receive, new_axis, switch_axis}
use marine_robotics_hil_sea.Ros.{Clock}

pub record System (T F : Type 0) : Type 0 where
  pub mixer : Mixer T F
  pub commands : List F
  pub motor : Axis F

module _ {T F : Type 0} ⦃d : Double F⦄ ⦃clock : Clock T F⦄ ⦃n : Narrow F⦄ (junk : Junk) where
  pub data Step (s : System T F) : System T F → Type 0 where
    -- A callback or tick of the mixer that leaves its clip.
    mixes :
        (e : Mixer.Event T F)
        → (Mixer.step s.mixer e).0.hard_clip_nm ≡ s.mixer.hard_clip_nm
        → Step s (record s {
          mixer = (Mixer.step s.mixer e).0;
          commands = s.commands ++ (Mixer.step s.mixer e).1;
        })
    -- The controller writes the i-th command.
    delivers :
        (i : ℕ) {x : F}
        → get_elem? s.commands i ≡ some x
        → Step s (record s { motor = record s.motor { torque_setpoint = x } })
    -- A switch of command modes, and a frame of the drive.
    switches :
        (active : Bool) (start stop : List String)
        → Step s (record s { motor = (switch_axis junk active start stop s.motor).0 })
    receives : (frame : Frame) → Step s (record s { motor = receive frame s.motor })

  -- The mixer as it is constructed, and an axis as it is initialised.
  abbrev pub init : T → Settings F → F → String → ℕ → System T F
  init epoch p nan joint_name node_id = record {
    mixer = Mixer.construct epoch p;
    commands = [];
    motor = new_axis nan joint_name node_id;
  }

  pub data Reach (s0 : System T F) : System T F → Type 0 where
    at_start : Reach s0 s0
    later : {s t : System T F} → Reach s0 s → Step s t → Reach s0 t
