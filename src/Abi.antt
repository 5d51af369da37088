-- ===== src/Abi.antt =====
-- src/linux_abi.c: the numbers and layouts of the Linux ARM interface.
pub mod Errno
pub mod Answer
mod Tests
