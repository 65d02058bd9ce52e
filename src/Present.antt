-- ===== src/Present.antt =====
-- The Vulkan layer gpu/tools/vk-present-sync-layer.c: devices, the wait before a present, pacing.
pub mod State
pub mod Pace
pub mod Layer
pub mod Chain
pub mod Procs
pub mod Slots
pub mod Paced
pub mod Devices
pub mod Linked
mod Tests
