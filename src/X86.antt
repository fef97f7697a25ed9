-- ===== src/X86.antt =====
-- src/arch/x86_64: the x86 and x86-64 instruction set.
pub mod Types
pub mod Operands
pub mod Opcode
pub mod Rows
pub mod Merge
pub mod OneByte
pub mod X87
pub mod TwoByte
pub mod Vex
pub mod Registers
pub mod Render
pub mod Decoder
