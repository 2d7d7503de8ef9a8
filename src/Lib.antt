-- ===== src/Lib.antt =====
-- The control programs of the Adeept AWR robot car, from sensor values to commands for the motors: the
-- decisions of autonomous_robot, and the programs that drive the car on their own.
--
-- Each part is a tree of modules, with the state and the operations in its first modules and what
-- is proved in the later ones, and runs on concrete values in Examples:
--   Common      lists, bounded buffers, Boolean tests, results that may raise, and the
--               operations of Python's `float`
--   Vocabulary  the texts that the parts exchange: positions on the line, danger levels, actions
--   Avoidance   autonomous_robot/utils/obstacle_avoidance_strategies.py: the history of obstacles
--               (State, Analysis), the five strategies (Strategies), and
--               get_complete_obstacle_avoidance_command (Command), which records a detection,
--               chooses a strategy where none is under way, and runs it
--   Rotary      autonomous_robot/utils/simple_rotary_functions.py: the memory of readings and the
--               rotary status (State), the decisions of each section (Decision), and
--               get_smart_driving_command_for_rotary_and_normal_sections (Command)
--   LineFilter  autonomous_robot/sensors/line_sensor_noise_filter.py: the histories and scores
--               (State), the consistency of a reading (Consistency), and
--               get_filtered_line_sensor_reading (Reading); the status and a prediction are in Report
--   Motors      autonomous_robot/actuators/simple_motor_functions.py: the pins (State), the movements
--               and the actions by name (Actions)
--   Ultrasonic  the measuring of autonomous_robot/sensors/simple_ultrasonic_functions.py (Echo), and
--               autonomous_robot/sensors/ultrasonic_noise_filter.py (State, Filter, Measure)
--   Obstacle    the danger levels and get_complete_obstacle_status_and_recommendation of
--               autonomous_robot/sensors/simple_ultrasonic_functions.py
--   Robot       simple_car/check/simple_robot_main.py, which calls all of the above but LineFilter: the
--               start and end of the hardware (State), a control cycle (Fusion), and the driving loop
--               with the commands of the user (Loop)
--   Controller  the class-based robot: autonomous_robot/sensors/line_sensor.py (Line),
--               autonomous_robot/utils/rotary_handler.py (Rotary),
--               autonomous_robot/sensors/ultrasonic_sensor.py (Distance),
--               autonomous_robot/actuators/motor_controller.py (Drivers) and
--               autonomous_robot/controllers/autonomous_controller.py (Decision, Operations), whose
--               threads take their steps between the other operations, and the program around it (Session)
--   Hardware    the drivers that the programs below share: hardware/test_gear_motors.py (GearMotors),
--               hardware/test_line_sensors.py (LineSensor), hardware/test_ultrasonic_sensor.py
--               (UltrasonicSensor) and hardware/test_servo_motors.py (Servo)
--   FunctionalCar  functional_line_car_v2.py: the globals and the reading of the sensors (State), the
--               motors (Turns), the avoidance of an obstacle in stages (Stages), the line (Following), a
--               round of the control loop (Cycle), and its threads with the steps of the user (Session);
--               and functional_line_car_english.py where its text differs (English)
--   MainProgram main.py: the robot and its start and stop (State), a round in each mode (Modes), and the
--               commands of the user with the threads (Commands)
--   HighSchool  simple_car/ultra_simple_car_v3_improved.py: the detection of a rotary (Samples) and the
--               drive (Drive); and, in Easy, simple_car/ultra_simple_car_v2_easy.py: its detection of a rotary
--               (Rotary), the rounds (Drive), and the timed lessons with the menu (Lessons)
--   AdvancedCar car_config.py (Config) and advanced_line_car.py: the car that follows the line (Car), and
--               its threads with the commands of the user (Loop)
-- The definitions bear the names of the functions that they model.
--
-- The module globals of a file are a record, and a function that changes them takes the record and
-- returns the new one beside its result. What is read from pins and from the clock is an argument.
-- A function that may raise returns a Result; the globals that it changed before it raised stay
-- changed. `None` is the `none` of an Option.
--
-- A control thread takes one step at a time: the test of its loop, or its body. The steps of threads and
-- of the user are events, and a history is any sequence of them, also one that no session has, so that
-- what holds over every history holds of each session.
--
-- Numbers: speeds, counts and scores are whole numbers, signed ones (Common.Signed) where a program
-- commands a wheel with one number. What the program computes as a `float` (distances, times, ratios,
-- confidences, degrees) is of any type with the operations of Common.Floats, and no law of arithmetic is
-- assumed unless a theorem asks for it; the examples, and the bound on the length of an avoidance, take
-- thousandths. A position on the line is in tenths, which hold every value that the sensor gives. The
-- `int(...)` of a speed times a ratio is a division of whole numbers, which agrees with it for the speeds
-- that are commanded. The time that the advanced car has lost
-- the line for is compared with the count of rounds multiplied out. Loops run over lists, the driving loop over the cycles that it has until the stop
-- signal comes; the loops that wait for the echo run on fuel, and one round more than the clock needs to
-- pass the timeout is enough.
--
-- Not modelled: the texts of reasons, printing, what RPi.GPIO does with the pins, the delays, globals that
-- nothing reads, the LED strip's colours, and the other programs of the repository: the class-based
-- line following car and the older high school cars, the exercises, the vendor's server
-- and client, and the scripts that install or try the hardware.
pub mod Common
pub mod Controller
pub mod Vocabulary
pub mod Avoidance
pub mod Motors
pub mod Rotary
pub mod Robot
pub mod LineFilter
pub mod Ultrasonic
pub mod Obstacle
pub mod Hardware
pub mod FunctionalCar
pub mod MainProgram
pub mod HighSchool
pub mod AdvancedCar
