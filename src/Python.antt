-- ===== src/Python.antt =====
-- The part of Python that the program computes with: text, values of any type, floats.
pub mod Text
pub mod Calendar
pub mod Order
pub mod Padding
pub mod Value
pub mod Whole
mod Tests
