-- ===== src/Cam.antt =====
-- The capture side of camera/driver/cam: requests, buffers, interrupts and streaming.
pub mod State
pub mod Jobs
pub mod Buffers
pub mod Irq
pub mod Configure
pub mod Composer
pub mod Stream
pub mod Queueing
pub mod Completion
pub mod Dequeue
pub mod Returned
pub mod Capturing
pub mod Interrupt
pub mod Addresses
pub mod Fresh
pub mod Starting
pub mod Stopping
pub mod Session
pub mod Listed
pub mod Sessions
pub mod Restarted
pub mod Histories
mod Tests
mod Examples
mod Runs
