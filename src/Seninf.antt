-- ===== src/Seninf.antt =====
-- The sensor interface, camera/driver/seninf/mtk_seninf.c: formats of its pads, links, registers.
pub mod State
pub mod Registers
pub mod Formats
pub mod Access
pub mod Mux
pub mod Dphy
pub mod Power
pub mod BitRun
pub mod Ports
pub mod Streaming
pub mod Stopping
pub mod Frame
pub mod Negotiated
pub mod Reached
pub mod Pattern
pub mod Register
pub mod Unwound
mod Tests
