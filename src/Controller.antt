-- ===== src/Controller.antt =====
-- The class-based robot: the controller of autonomous_robot/controllers/autonomous_controller.py
-- with its line sensor, distance sensor and motors.
pub mod Line
pub mod Rotary
pub mod Distance
pub mod Drivers
pub mod Decision
pub mod Operations
pub mod Session
pub mod Ending
pub mod Safety
pub mod Noise
pub mod Choice
pub mod Transitions
mod Examples
