-- ===== src/Startup.antt =====
-- src/runtime.c: what the guest starts with.
pub mod Stack
pub mod Vector
pub mod Visible
pub mod Placed
pub mod Started
mod Tests
