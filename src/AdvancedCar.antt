-- ===== src/AdvancedCar.antt =====
-- advanced_line_car.py with car_config.py: a car that follows the line as its configuration says.
mod Config
mod Car
mod Loop
mod Valid
mod Limits
mod Lost
mod Sides
mod Examples
