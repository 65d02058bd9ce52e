-- ===== src/Graph.antt =====
-- The media graph of camera/driver/cam/mtk_cam.c: its registration, and the formats of its pads.
pub mod Register
pub mod Registered
pub mod Notifier
pub mod Inited
pub mod Pads
pub mod Chain
mod Tests
