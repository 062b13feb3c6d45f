-- ===== src/System/StackTests.antt =====
-- A run of the whole stack: a PID torque goes through the mixer to the drive.
use marine_robotics_hil_sea.Base.{
  ℕ, ◌<◌, ◌^◌, ◌≡◌, refl, true, false, some, [], ◌∷◌, map, arith, get_elem?,
}
use marine_robotics_hil_sea.Can.Messages.{set_input_torque_msg}
use marine_robotics_hil_sea.Can.Tests.{toy_float}
use marine_robotics_hil_sea.Flap.Node.{enable_hydro_request, handle}
use marine_robotics_hil_sea.Flap.Node
use marine_robotics_hil_sea.Flap.{on_enable_hydro}
use marine_robotics_hil_sea.Flap.SimTests.{hil_node, hil_node-IsValid, hil_node_clip}
use marine_robotics_hil_sea.Float
use marine_robotics_hil_sea.Pid
use marine_robotics_hil_sea.Float.Fixed.{Fixed, nan, Fixed-IsIeee, fixed_double}
use marine_robotics_hil_sea.Hydro.Tests.{half}
use marine_robotics_hil_sea.Mixer
use marine_robotics_hil_sea.Mixer.Tests.{settings}
use marine_robotics_hil_sea.Odrive.{write_axis, new_axis, set_input, set_inputs, switch_axis}
use marine_robotics_hil_sea.Odrive.Estimates.{torque_request}
use marine_robotics_hil_sea.Odrive.Tests.{whole, junk}
use marine_robotics_hil_sea.Samples.{decimal, minus, fixed_clock, World, toy_chrono}
use marine_robotics_hil_sea.System.Network.{
  Network, controlled, simulated, mixed, controls, simulates, hears_pid, mixes, delivers, switches,
  Reach, at_start, later,
}
use marine_robotics_hil_sea.System.Reachable.{start_of, Origin, Reach-Origin}
use marine_robotics_hil_sea.Velocity
use marine_robotics_hil_sea.Velocity.Tests.{read_params, sensed}

abbrev initial : Network Fixed Fixed World ℕ ℕ
initial =
    start_of junk (decimal 0 0) (decimal 0 0) "flap" "cascade" read_params hil_node settings nan
      "motor_joint" 0

abbrev coupled : Network Fixed Fixed World ℕ ℕ
coupled = simulated junk (enable_hydro_request true) initial

abbrev sensing : Network Fixed Fixed World ℕ ℕ
sensing = controlled junk (Velocity.Event.joint_state sensed) coupled

abbrev ticked : Network Fixed Fixed World ℕ ℕ
ticked = controlled junk (Velocity.Event.timer (decimal 1 2)) sensing

-- The torque that the tick publishes.
abbrev torque : Fixed
torque = minus 503 5

published : get_elem? ticked.pid_torques 0 ≡ some torque
unfolding Velocity.step Velocity.joint_state_callback Velocity.construct Velocity.locate
    Velocity.index_holds Velocity.find_index Velocity.read_sample Velocity.read_position
    Velocity.read_velocity Velocity.apply_pos_pid_config Velocity.apply_vel_pid_config
    Velocity.control_loop Velocity.control Velocity.dispatch Velocity.run_inner_loop
    Velocity.run_outer_loop Velocity.outer_tick Velocity.startup Node.step Velocity.param_defs
    Velocity.startup_validate Velocity.get_member_value Velocity.write_default handle
    on_enable_hydro Velocity.is_valid_control_mode Float.limited Float.clamp Pid.compute
    Pid.raw_output Pid.error_of Pid.integrate Pid.clamp_integral Velocity.time_step
    Pid.derivative_of Velocity.feedforward Velocity.compute_trajectory
published = refl

abbrev heard : Network Fixed Fixed World ℕ ℕ
heard = mixed junk (Mixer.pid_message (torque ∷ []) (decimal 2 2)) ticked

abbrev commanded : Network Fixed Fixed World ℕ ℕ
commanded = mixed junk (Mixer.timer (decimal 3 2)) heard

abbrev delivered : Network Fixed Fixed World ℕ ℕ
delivered = record commanded { motor = record commanded.motor { torque_setpoint = torque } }

abbrev switched : Network Fixed Fixed World ℕ ℕ
switched = record delivered {
  motor = (switch_axis junk true ("motor_joint/effort" ∷ []) [] delivered.motor).0;
}

-- The command of the mixer.
commands_torque : get_elem? commanded.commands 0 ≡ some torque
unfolding Mixer.step Mixer.tick Mixer.on_pid Mixer.construct Mixer.effective_pid
    Mixer.effective_load Float.clamp
commands_torque = refl

reached : Reach junk initial switched
unfolding Node.step handle on_enable_hydro
reached =
    later
      (later
        (later
          (later
            (later
              (later (later at_start (simulates (enable_hydro_request true) tt))
                (controls (Velocity.Event.joint_state sensed) tt))
              (controls (Velocity.Event.timer (decimal 1 2)) tt))
            (hears_pid 0 (decimal 2 2) {x = torque} published))
          (mixes (decimal 3 2)))
        (delivers 0 {x = torque} commands_torque))
      (switches true ("motor_joint/effort" ∷ []) [])

torque_mode : switched.motor.torque_input_enabled ≡ true
unfolding switch_axis set_inputs set_input new_axis
torque_mode = refl

no_velocity : switched.motor.vel_input_enabled ≡ false
unfolding switch_axis set_inputs set_input new_axis
no_velocity = refl

no_position : switched.motor.pos_input_enabled ≡ false
unfolding switch_axis set_inputs set_input new_axis
no_position = refl

node_fits : switched.motor.node_id < 2 ^ 27
unfolding switch_axis set_inputs set_input new_axis
node_fits = omega arith

Reach-Origin_example :
    (x : Fixed) × Origin initial switched x
    × (map torque_request (write_axis junk switched.motor)
        ≡ (
          switched.motor.node_id,
          set_input_torque_msg.cmd_id,
          record { input_torque = whole.to_float x },
        )
          ∷ [])
Reach-Origin_example =
    Reach-Origin junk Fixed-IsIeee (decimal 0 0) (decimal 0 0) "flap" "cascade" read_params hil_node
      settings nan "motor_joint" 0 hil_node-IsValid hil_node_clip reached node_fits no_position
      no_velocity torque_mode
