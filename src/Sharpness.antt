-- ===== src/Sharpness.antt =====
-- The sharpness meter tools/sharpness.c.
pub mod Meter
pub mod Window
pub mod Scaled
mod Tests
