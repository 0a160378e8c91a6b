-- ===== src/Standard.antt =====
-- What the program uses of the C++ standard library beyond strings: `std::map`, `std::regex`,
-- `std::stoi`, `std::to_string` and `std::get_time`.
pub mod GetTime
pub mod Map
pub mod Regex
pub mod Stoi
pub mod ToString
