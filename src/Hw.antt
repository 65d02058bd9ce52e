-- ===== src/Hw.antt =====
-- The device of camera/driver/cam/mtk_cam-hw.c: its probe and removal, and its power.
pub mod Probe
pub mod Probed
pub mod Power
pub mod Resumed
mod Tests
