-- ===== src/MainProgram.antt =====
-- main.py: the robot with its modes, its control thread and the commands of its user.
mod State
mod Modes
mod Commands
mod Wheels
mod Navigation
mod Stopping
mod Servos
mod Examples
