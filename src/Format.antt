-- ===== src/Format.antt =====
-- src/disassembler/format: the containers, reduced to sections and an architecture.
pub mod Section
pub mod Names
pub mod Elf
pub mod Pe
pub mod Detect
pub mod Totality
