-- ===== src/Wrapper.antt =====
-- src/scanbd/scanbuttond_wrapper.c: the polling of the scanners of scanbuttond's backends.
pub mod Match
pub mod Poll
pub mod Threads
mod Tests
pub mod PollTests
mod ThreadsTests
