-- ===== src/Poll.antt =====
-- src/linux_poll.c: poll, select and their variants that wait with another signal mask.
pub mod Events
pub mod Timeout
pub mod FdSets
pub mod Wait
pub mod Calls
pub mod Select
pub mod Masked
pub mod Selecting
mod Tests
