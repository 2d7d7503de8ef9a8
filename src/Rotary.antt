-- ===== src/Rotary.antt =====
-- The rotary driving of autonomous_robot/utils/simple_rotary_functions.py.
pub mod State
pub mod Decision
pub mod Command
pub mod Invariant
pub mod Exit
pub mod Mirror
pub mod Symmetry
pub mod Examples
