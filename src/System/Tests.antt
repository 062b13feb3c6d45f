-- ===== src/System/Tests.antt =====
-- A run of the mixer and the hardware interface: a load arrives, the axis is switched to torque
-- control, a tick publishes a command, and the controller writes it.
use marine_robotics_hil_sea.Base.{◌<◌, ◌^◌, ◌≡◌, refl, true, false, [], ◌∷◌, map, arith}
use marine_robotics_hil_sea.Can.Messages.{set_input_torque_msg}
use marine_robotics_hil_sea.Can.Tests.{toy_float}
use marine_robotics_hil_sea.Float.{Bounded, clamp, is_nan}
use marine_robotics_hil_sea.Float.Fixed.{Fixed, nan, Fixed-IsIeee, fixed_double}
use marine_robotics_hil_sea.Mixer
use marine_robotics_hil_sea.Mixer.{Mixer, load_message, timer}
use marine_robotics_hil_sea.Mixer.Tests.{settings}
use marine_robotics_hil_sea.Odrive.{write_axis, new_axis, set_input, set_inputs, switch_axis}
use marine_robotics_hil_sea.Odrive.Estimates.{torque_request}
use marine_robotics_hil_sea.Odrive.Tests.{whole, junk}
use marine_robotics_hil_sea.Samples.{decimal, fixed_clock}
use marine_robotics_hil_sea.System.Drive.{Reach-torque_request}
use marine_robotics_hil_sea.System.Relation.{
  System, Step, mixes, delivers, switches, init, Reach, at_start, later,
}

abbrev mixer : Mixer Fixed Fixed
mixer = Mixer.construct (decimal 0 0) settings

abbrev initial : System Fixed Fixed
initial = init junk (decimal 0 0) settings nan "motor_joint" 0

abbrev loaded : System Fixed Fixed
loaded = record initial { mixer = (Mixer.step mixer (load_message (decimal 7 1) (decimal 1 0))).0 }

abbrev switched : System Fixed Fixed
switched = record loaded {
  motor = (switch_axis junk true ("motor_joint/effort" ∷ []) [] loaded.motor).0;
}

abbrev ticked : System Fixed Fixed
ticked = record switched { commands = decimal 5 1 ∷ [] }

abbrev delivered : System Fixed Fixed
delivered = record ticked { motor = record ticked.motor { torque_setpoint = decimal 5 1 } }

load_step : Step junk initial loaded
unfolding Mixer.construct Mixer.step Mixer.on_load
load_step = mixes (load_message (decimal 7 1) (decimal 1 0)) refl

tick_step : Step junk switched ticked
unfolding Mixer.construct Mixer.step Mixer.on_load Mixer.tick Mixer.effective_pid
    Mixer.effective_load clamp
tick_step = mixes (timer (decimal 11 1)) refl

reached : Reach junk initial delivered
reached =
    later
      (later (later (later at_start load_step) (switches true ("motor_joint/effort" ∷ []) []))
        tick_step)
      (delivers 0 refl)

torque_mode : delivered.motor.torque_input_enabled ≡ true
unfolding switch_axis set_inputs set_input new_axis
torque_mode = refl

no_velocity : delivered.motor.vel_input_enabled ≡ false
unfolding switch_axis set_inputs set_input new_axis
no_velocity = refl

no_position : delivered.motor.pos_input_enabled ≡ false
unfolding switch_axis set_inputs set_input new_axis
no_position = refl

node_fits : delivered.motor.node_id < 2 ^ 27
unfolding switch_axis set_inputs set_input new_axis
node_fits = omega arith

real_clip : is_nan mixer.hard_clip_nm ≡ false
unfolding Mixer.construct
real_clip = refl

Reach-torque_request_example :
    (x : Fixed) × Bounded mixer.hard_clip_nm x
    × (map torque_request (write_axis junk delivered.motor)
        ≡ (
          delivered.motor.node_id,
          set_input_torque_msg.cmd_id,
          record { input_torque = whole.to_float x },
        )
          ∷ [])
Reach-torque_request_example =
    Reach-torque_request junk Fixed-IsIeee (decimal 0 0) settings nan "motor_joint" 0 real_clip
      reached node_fits no_position no_velocity torque_mode
