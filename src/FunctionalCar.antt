-- ===== src/FunctionalCar.antt =====
-- functional_line_car_v2.py: a car that follows the line and goes round an obstacle in three stages. In
-- English, functional_line_car_english.py where its text differs.
mod State
mod Turns
mod Stages
mod Following
mod Cycle
mod English
mod Session
mod Wheels
mod Phases
mod Steering
mod Lost
mod Progress
mod Counts
mod Threads
mod Twins
mod Examples
pub use State.{Car}
unfoldable pub use Following.{execute_line_following_drive}
pub use Steering.{backward_wheels, search_opposes_drive}
