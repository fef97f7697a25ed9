-- ===== src/X86/X87.antt =====
-- The x87 escape opcodes D8 to DF: src/arch/x86_64/x86_64_tables.cpp.
mod Memory
mod Register
use voidwalk.Common.{ℕ, ◌+◌, ◌-◌, ◌*◌, ◌/◌, ◌%◌, if◌then◌else◌, ltb, leb, Bool, ◌&&◌}
use voidwalk.X86.Types.{OpcodeInfo, empty_info, row_at}
use Memory.{x87_memory_rows}
use Register.{x87_register_rows}

unfoldable pub x87_memory_table : ℕ → OpcodeInfo
unfolding x87_memory_rows row_at
x87_memory_table index = row_at x87_memory_rows empty_info index

unfoldable pub x87_register_table : ℕ → OpcodeInfo
unfolding x87_register_rows row_at
x87_register_table index = row_at x87_register_rows empty_info index

abbrev pub is_x87 : ℕ → Bool
is_x87 opcode = leb 0xd8 opcode && leb opcode 0xdf

unfoldable pub x87_resolved_info : ℕ → ℕ → OpcodeInfo
x87_resolved_info opcode mod_rm =
    let escape_index = opcode - 0xd8 in
    if ltb mod_rm 0xc0
    then x87_memory_table (escape_index * 8 + mod_rm / 8 % 8)
    else x87_register_table (escape_index * 64 + mod_rm % 64)
