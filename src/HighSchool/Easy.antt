-- ===== src/HighSchool/Easy.antt =====
-- simple_car/ultra_simple_car_v2_easy.py, the car with the timed lessons: its detection of a rotary
-- (Rotary), its rounds (Drive), and the lessons and the menu (Lessons). What the text of the file
-- shares with version 3, the line and the hardware that was made, is defined there.
mod Rotary
mod Drive
mod Lessons
mod Counting
mod Reentry
mod Menu
mod Examples
