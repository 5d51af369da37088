-- ===== src/Elf.antt =====
-- src/elf_loader.c: from an ELF file to a guest image.
pub mod Types
pub mod Checks
pub mod Sections
pub mod Interpreter
pub mod Load
pub mod Restore
pub mod Loading
pub mod Image
pub mod Imaged
mod Tests
