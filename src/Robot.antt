-- ===== src/Robot.antt =====
-- The program simple_car/check/simple_robot_main.py, which ties the sensors, the decisions and the
-- motors together.
pub mod State
pub mod Fusion
pub mod Loop
pub mod Cycle
pub mod Ending
pub mod Mirror
mod Examples
