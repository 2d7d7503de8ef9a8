-- ===== src/Hardware.antt =====
-- The drivers of hardware/ that the line following cars and the main program call.
mod GearMotors
mod LineSensor
mod UltrasonicSensor
mod Servo
mod Pulses
mod ReadBack
mod Wheels
mod Patterns
mod Polling
mod Examples
pub use GearMotors.{
  Pins, Gear, Side, motor_A, motor_B, wheel, pins_for, stopped, stop_gear, set_gear,
}
pub use ReadBack.{wheel-pins_for}
unfoldable pub use GearMotors.{initial_gear, motor_stop, set_motor_speed}
pub use Wheels.{Allowed, allowed, IsDriven, stop_gear-IsDriven, set_gear-IsDriven, speeds-IsDriven}
pub use Patterns.{levels, each_levels}
pub use LineSensor.{Levels}
unfoldable pub use LineSensor.{pattern_of, position_map, get_line_position, get_simple_position}
pub use Servo.{Servos, is_channel, is_angle, pulse_of}
pub use Pulses.{
  IsPulse, ArePulses, set-ArePulses, center-ArePulses, sweep-ArePulses, cleanup-ArePulses, AreOff,
  cleanup-AreOff,
}
unfoldable pub use Servo.{set_servo_angle, center_servo, sweep_servo, cleanup_servos}
