-- ===== src/Egl.antt =====
-- The shim in front of the driver's EGL, gpu/tools/egl-gbm-shim.c.
pub mod Shim
pub mod Advertised
mod Tests
