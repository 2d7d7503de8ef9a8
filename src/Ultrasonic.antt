-- ===== src/Ultrasonic.antt =====
-- The ultrasonic sensor: measuring in autonomous_robot/sensors/simple_ultrasonic_functions.py, and
-- the noise filter, autonomous_robot/sensors/ultrasonic_noise_filter.py.
pub mod Echo
pub mod State
pub mod Filter
pub mod Measure
pub mod Outcomes
pub mod Invariant
pub mod Lockout
pub mod Average
mod Examples
