-- ===== src/Format.antt =====
-- Pixel formats of camera/driver/cam/mtk_cam.c: the tables, the ioctls and what holds of them.
pub mod Codes
pub mod Nodes
pub mod Negotiate
pub mod Config
pub mod Agree
pub mod Enumerate
pub mod Stride
pub mod Negotiated
pub mod Resize
pub mod Tests
