-- ===== src/Cpp.antt =====
-- What the sources use of C++ and its standard library.
pub mod Outcome
pub mod Method
pub mod Text
pub mod Decimal
pub mod Double
pub mod Milli
pub mod Sort
pub mod Random
pub mod Time
