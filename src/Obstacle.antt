-- ===== src/Obstacle.antt =====
-- The analysis of the danger in autonomous_robot/sensors/simple_ultrasonic_functions.py.
pub mod Danger
pub mod Status
pub mod Closer
mod Examples
