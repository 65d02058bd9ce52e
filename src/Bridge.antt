-- ===== src/Bridge.antt =====
-- The loopback bridge, tools/bridge.c: from the packed 10-bit frames of the camera to YUYV.
pub mod Pixels
pub mod Convert
pub mod Unpacked
pub mod Range
pub mod Blocks
pub mod Written
pub mod Reads
pub mod Order
pub mod Loop
pub mod Kept
mod Runs
mod Tests
