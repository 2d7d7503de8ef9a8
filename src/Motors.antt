-- ===== src/Motors.antt =====
-- The two motors and their commands, autonomous_robot/actuators/simple_motor_functions.py.
pub mod State
pub mod Actions
pub mod Safety
pub mod Drive
mod Examples
