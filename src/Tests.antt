-- ===== src/Tests.antt =====
-- The theorems at concrete inputs.
pub mod World
pub mod Fixtures
mod Scanning
mod Selecting
mod Locking
mod Racing
mod Filing
mod Running
mod Whole
mod Judging
mod Batches
mod Encoding
mod Sending
mod Logged
mod Comparing
