-- ===== src/Elf.antt =====
-- The ELF writer of src/elf_writer.c, and what the linker of src/linker.c reads back.
pub mod Buffer
pub mod Header
pub mod Leb
pub mod Rela
pub mod Memory
pub mod Registers
mod Examples
