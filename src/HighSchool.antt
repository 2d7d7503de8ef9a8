-- ===== src/HighSchool.antt =====
-- simple_car/ultra_simple_car_v3_improved.py: a car that looks for a rotary in its last readings. In
-- Easy, simple_car/ultra_simple_car_v2_easy.py.
mod Samples
mod Drive
mod Calm
mod Gap
mod Course
mod Examples
mod Easy
