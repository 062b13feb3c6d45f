-- ===== src/Lib.antt =====
-- Verification of the Marine Robotics HIL / SEA-Stack workspace: the torque path from the controllers
-- to the motor of a flap wave energy converter, and the CAN protocol that carries it.
--
-- The program and its model. The velocity node reads joint states and commands a torque at a fixed
-- rate; the mixer adds the load torque of the simulation, with watchdogs and a hard clip; the shadow
-- controller repeats the velocity node's control law on the simulated flap; the hardware interface
-- sends the torque to the motor drive in CAN messages, and reads its estimates from them.
--
--   Pid       class PidController: src/odrive_velocity_pid/include/odrive_velocity_pid/pid_controller.hpp
--             Defs has reset and the steps of compute; Limits and History have its properties.
--   Velocity  class VelocityPidNode: src/odrive_velocity_pid/src/velocity_pid_node.cpp
--             State has the members, Table the entries of param_defs_, Reconfigure the parameter
--             callbacks, Joint the joint state callback, Loops the trajectory, the loops and
--             control_loop, Node the constructor and the sequence of callbacks. Tuning, Startup,
--             Torque, Divider and Index have the properties.
--   Mixer     class HilTorqueMixerNode: src/hil_torque_mixer/src/hil_torque_mixer_node.cpp
--             Defs has every callback, Replay its output as a function of what has reached it; Clip, Watchdog
--             and History have the properties.
--   Shadow    class ShadowPidController:
--             src/chrono_flap_sim/include/chrono_flap_sim/shadow_pid_controller.hpp
--             Defs has its methods; Mirror and Replay compare it with the velocity node.
--   Flap      class ChronoFlapNode: src/chrono_flap_sim/src/chrono_flap_node.cpp
--             Defs has the mode hil without the simulation, Store and State the parameters and the
--             members, Validation and Apply the parameter callbacks, Construct the constructor, Simulate
--             the passes of run, Node the callbacks as events. History, Clips, Setup, Stale, ShadowTorque
--             and ShadowMembers have the properties. Load, Tuning, Changes and Reach lead to Clips;
--             Spares and Feedback to Stale; Held, StoreLimit, ShadowLimit and ShadowStore, with Reach, to
--             the last two.
--   Hydro     class SeaStackHydroAdapter: src/chrono_flap_sim/src/sea_stack_hydro.cpp
--             Defs has its methods, Clip the properties.
--   Chrono    what the flap node and the adapter see of Project Chrono.
--   Can       src/odrive_base/include/can_helpers.hpp (Signal, Float32) and
--             src/odrive_base/include/can_simple_messages.hpp (Layout, Messages). Wire has the structs as
--             one type, Payload the accesses to a message type; Bits, Codec, Sequence, Transfer and Frames
--             have the properties.
--   Enums     src/odrive_base/include/odrive_enums.h: Axis, Device, Encoders and Errors have the
--             enumerations, Flags the property.
--   Odrive    class ODriveHardwareInterface and struct Axis:
--             src/odrive_ros2_control/src/odrive_hardware_interface.cpp
--             Motor has the frames of one axis, Defs the interface's methods, Lifecycle its initialisation
--             and the loop on the socket; Modes, Estimates and Silence have the properties.
--   Socket    class SocketCanIntf: src/odrive_base/src/socket_can.cpp
--             Defs has its methods; Lifecycle and Drain have the properties.
--   Epoll     classes EpollEventLoop and EpollEvent: src/odrive_base/src/epoll_event_loop.cpp
--             Defs has the loop, Event the event; Registry, Safety and Counting have the properties.
--   System    the mixer, the topic of its commands and the motor's axis, as a relation between states:
--             Relation has the steps, Drive the property. Network has the steps of the whole stack, with
--             both controllers' topics; Steady, Trace and Origin lead to its property in Reachable.
--   Ros       what the nodes see of rclcpp: clocks, parameters, the verdict of a validation.
--   Float     double as a type with operations; IsIeee lists the laws of IEEE 754 that proofs use, and
--             Fixed is a fixed-point type that meets them, on which the tests run.
--   Base      the library's names, and helpers on lists and integers over native numbers.
--   Samples   decimals, a clock and a world for the tests.
--
-- How the code is modelled. A node is a record of its members; a callback is a function from the state
-- (and the time that its clock reads) to the new state and what it publishes; a run is a list of
-- callbacks in any order, as the single-threaded executor calls them. rclcpp asks the validation
-- callback before the apply callback, and set_parameters does so. An exception of a parameter accessor
-- is a value, and leaves what was written before it. Members without an initialiser are parameters: the
-- time stamps of the mixer, and the flag active_ of the hardware interface.
--
-- Numbers. double is a parameter with the laws IsIeee, NaN included; no rounding is fixed. The counters
-- are integers without the bounds of int: they are reset at the divider, which std::llround rounds.
-- A float of a CAN message is its bit pattern, an unsigned field is a number with its width as a
-- hypothesis of the theorems. Payload words are functions from bit numbers to bits on a little-endian
-- host; the bytes of a union that the code leaves indeterminate are an arbitrary word.
--
-- The bytes of a frame before it is encoded are arbitrary, and the conversions between double and
-- float are parameters. A frame's id is the sum of the shifted node id and the 5 bits of the command id.
--
-- System calls. What the kernel answers is an argument, one value for each call. The loops of the
-- code run over lists, but for that which drains the socket: it runs on fuel, and one round more
-- than there are messages is enough. A pointer is a number, and the contexts that are allocated are a
-- list; to follow a pointer to a freed context is a crash, as a value.
--
-- Project Chrono and SEA-Stack are interfaces, with no laws: the theorems hold of every simulation. The
-- flap node is the one built with SEA-Stack. A
-- pass of the flap node reads the clock once.
--
-- Not modelled: logging, topic names, and the creation of ROS entities; main functions; launch files; the
-- visualisation of the flap; and the bodies that build_chrono_system creates, which are the initial world
-- of the constructor.
pub mod Base
pub mod Epoll
pub mod Socket
pub mod Float
pub mod Chrono
pub mod Hydro
pub mod Flap
pub mod Pid
pub mod Odrive
pub mod Ros
pub mod Mixer
pub mod Velocity
pub mod Samples
pub mod Shadow
pub mod System
pub mod Can
pub mod Enums
