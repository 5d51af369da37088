-- ===== src/Memory.antt =====
-- src/guest_memory.c: the guest's address space.
pub mod Table
pub mod Segments
pub mod Page
pub mod Query
pub mod Break
mod Tests
