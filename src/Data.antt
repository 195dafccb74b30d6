-- ===== src/Data.antt =====
-- src/data: orders and their generator.
pub mod Order
pub mod DataGenerator
