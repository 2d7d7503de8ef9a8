-- ===== src/Avoidance.antt =====
-- The obstacle avoidance system, autonomous_robot/utils/obstacle_avoidance_strategies.py.
pub mod State
pub mod Analysis
pub mod Strategies
pub mod Command
pub mod Invariant
pub mod Table
pub mod DeadEnd
pub mod Selection
pub mod History
pub mod Success
pub mod Wall
pub mod Outcomes
pub mod Maneuvers
mod Examples
