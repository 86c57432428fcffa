-- ===== src/Lib.antt =====
-- A verification library for dm_openarm, the C++ driver of an arm of Damiao motors.
--
-- A YAML file says which motors the arm has. `load_arm_config` reads it, `DmArm` owns the backend
-- that talks to the motors through a vendored library, and `MitLoopController` sends one command for
-- each motor again and again from a thread of its own. Another part parses the lines that a user
-- writes to the control program.
--
-- The parts and their files:
-- - dm_openarm/src/mit_control_command.cpp: Command.antt (`parse_can_id`, `parse_delta`,
--   `require_arg_count`, `parse_mit_control_command`) and Text/Tokens.antt (`split_tokens`).
-- - dm_openarm/src/yaml_loader.cpp: Loader.antt, one function for each of the file; the loop of
--   `load_arm_config` is `load_motors`, and its two sets and its vector are the record `Seen`.
-- - dm_openarm/include/dm_openarm/types.hpp and config.hpp: Types.antt.
-- - dm_openarm/src/backend/dm_serial_backend.cpp: Backend.antt. The object is the record `Backend`;
--   a method that changes it is an `Action`, which returns or throws and leaves a state.
-- - dm_openarm/src/dm_arm.cpp: Arm.antt, over the backend. The methods that only read, and the
--   destructors of this class and of the others, stand in modules named Methods.
-- - dm_openarm/src/motor.cpp and motor_group.cpp: MotorGroup.antt.
-- - dm_openarm/src/mit_loop_controller.cpp: Controller.antt (the constructor, `set_command`,
--   `set_all_commands`, `motor_index`) and Controller/Threads.antt, a step relation in which the
--   worker thread of `worker_loop`, a client that calls `start` and `stop`, and callers of the
--   setters take turns in any order. A call of `stop` is four steps: the exchange of `running_`, the
--   join, the zero commands, the exception.
-- - dm_openarm/examples/arm_mit_control.cpp: MitControl.antt. `read_lines` takes the bytes that the
--   FIFO held; `handle_line` is one round of the loop over the lines with its `catch`, `drive` the
--   second half of a round of the loop of `main`, `run` that loop on the lines of each round, and
--   `begin` what `main` does before it. The output is a list of what was written. MitControl/Fifo.antt
--   is `FifoCommandReader` over the system calls, MitControl/Main.antt the whole of `main`, and
--   MitControl/Printed.antt the text of what it writes.
-- - dm_openarm/examples/enable_disable.cpp, check_comm.cpp, hold_position.cpp and set_zero_position.cpp:
--   Program/Enable.antt, Program/Check.antt, Program/Hold.antt and Program/SetZero.antt, over
--   Program.antt, which holds what they share: the arm with its destructor, the `catch` of `main`, and
--   the lines they write.
-- - dm_openarm/include/dm_openarm/backend/motor_backend.hpp: Backend/Interface.antt, the class as a
--   record of its methods; Backend/Interface/Link.antt says what the methods promise.
-- - dm_openarm/src/python_bindings.cpp: Python.antt, as tables of attributes and records of methods.
--   dm_openarm/python/dm_openarm/arm.py: Python/Package.antt, the class Arm over the controller's threads; a call
--   of `stop` lets the worker make the four steps that are enough for it to end, and the steps that it makes
--   between the tests of `running` and `stop` in `stop_mit_loop` are an argument.
-- - resources/DMmotor/src/main.cpp and dev_sn.cpp: DmMotor.antt and DmMotor/Devices.antt.
-- Base.antt and its children hold lists, exceptions, actions and integers.
--
-- What is a parameter:
-- - Double.antt: `double` as a record of operations, with what is assumed of NaN.
-- - Yaml.antt: what the loader calls of yaml-cpp.
-- - Sdk.antt: what the backend calls of dm_openarm/third_party/damiao_sdk, with named laws
--   (`SdkLaws`): which motor is found under a number, that a call keeps the motors, and what a
--   `control_mit` sends. Sdk/Zeroing.antt adds what the calls that set a zero position or write the
--   flash tell the motors (`ZeroLaws`). Sdk/Simulated.antt meets them. Double/Fixed.antt and Loader/Fixture.antt
--   serve the runs in the Tests modules.
-- - Posix of MitControl/Fifo.antt and Libusb of DmMotor/Devices.antt: the calls of the system and of
--   libusb; `PosixLaws` says which descriptors are open after a call, and `LibusbLaws` what a call opens
--   and what it closes.
-- - Double/Rounding.antt: `Rounding`, what IEEE 754 says of comparisons and of rounded sums of finite numbers
--   within a bound, for MitControl/Approaching.antt, MitControl/Settling.antt and MitControl/Homing.antt.
--   Double/Fixed.antt, in millionths, meets it in Double/Millionths.antt.
--
-- Bounds: CAN and MST IDs have 16 bits and baud rates 32, which the code tests; `unsigned long` has
-- 64 bits, and `std::stoul` (Text/Stoul.antt) negates modulo 2^64. No definition takes fuel but the
-- printing of numbers, where the number itself is enough, and `finish` of Controller/Outcome.antt,
-- whose two and three steps are all that is left of `start` and `stop` behind their calls.
--
-- The loops that an interrupt ends take the rounds they make before it as an argument: what each round
-- reads, the milliseconds that are left of its period, or what the hardware does while it sleeps.
-- MitControl/Printed.antt takes what `<<` writes of a `double` as an argument.
--
-- Not modelled: the clock (a sleep is one step, and what the hardware does meanwhile is part of the
-- next call), the locale of `std::isspace`, a failed allocation or thread creation, the line that
-- the signal handler of resources/DMmotor/src/main.cpp writes, nanobind itself, and the vendored
-- copies of the motor library, that under resources/DMmotor included. What the destructor of that
-- library does to the motors when an arm is disconnected is left out with it: an arm without a
-- library object is an arm that is not connected. One thread at a time calls `start` and `stop`,
-- and while the loop runs nothing else calls the arm.
pub mod Arm
pub mod Backend
pub mod Base
pub mod Command
pub mod Controller
pub mod DmMotor
pub mod Double
pub mod Loader
pub mod MitControl
pub mod MotorGroup
pub mod Program
pub mod Python
pub mod Sdk
pub mod Text
pub mod Types
pub mod Yaml
