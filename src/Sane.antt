-- ===== src/Sane.antt =====
-- src/scanbd/sane.c: the polling of the devices that SANE reports.
pub mod Types
pub mod Value
pub mod Match
pub mod Poll
pub mod Threads
pub mod Samples
mod Tests
mod LoopTests
mod ThreadsTests
