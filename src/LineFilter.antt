-- ===== src/LineFilter.antt =====
-- The noise filter of the line sensors, autonomous_robot/sensors/line_sensor_noise_filter.py.
pub mod State
pub mod Consistency
pub mod Reading
pub mod Report
pub mod Majority
pub mod Outcomes
pub mod Invariant
pub mod Stall
pub mod Examples
