-- ===== src/X86/Render/Branches.antt =====
-- Which instructions branch: the control flow that the constructor of x86_64 stores, and its tests
-- of the opcode. src/arch/x86_64/x86_64_instruction.hpp and Flow of src/arch/instruction.hpp.
use voidwalk.Common.{
  ℕ, ◌==◌, ◌%◌, leb, if◌then◌else◌, Bool, true, false, ◌&&◌, ◌||◌, ◌≡◌, ◌≢◌, arith,
}
use voidwalk.X86.Types.{Simd, Addressing}
use voidwalk.X86.Decoder.Bytes.{Fields}
use voidwalk.X86.Render.Memory.{is_indirect}

pub data Flow : Type 0 where
  none call jump cond_jump return : Flow

abbrev between : ℕ → ℕ → ℕ → Bool
between lo hi n = leb lo n && leb n hi

unfoldable pub is_branch : Fields → Simd → Bool
unfolding is_indirect
is_branch f simd =
    let opcode = f.opcode in
    is_indirect f simd
    || (simd.map == 0)
      && (between 0x70 0x7f opcode
          || (opcode == 0xc2)
          || (opcode == 0xc3)
          || (opcode == 0xe8)
          || (opcode == 0xe9)
          || (opcode == 0xeb))
    || (simd.map == 1) && between 0x80 0x8f opcode

-- "Control flow": the opcodes of the one-byte map, then those behind 0F.
unfoldable pub flow_of : Fields → Simd → Flow
flow_of f simd =
    let opcode = f.opcode in
    let reg_field = f.reg % 8 in
    if simd.map == 0
    then (if (opcode == 0xe8)
          || (opcode == 0x9a)
          || (opcode == 0xff) && ((reg_field == 2) || (reg_field == 3))
        then Flow.call
        else if (opcode == 0xe9)
            || (opcode == 0xeb)
            || (opcode == 0xea)
            || (opcode == 0xff) && ((reg_field == 4) || (reg_field == 5))
        then Flow.jump
        else if between 0x70 0x7f opcode || between 0xe0 0xe3 opcode
        then Flow.cond_jump
        else if (opcode == 0xc2)
            || (opcode == 0xc3)
            || (opcode == 0xca)
            || (opcode == 0xcb)
            || (opcode == 0xcf)
        then Flow.return
        else Flow.none)
    else if (simd.map == 1) && between 0x80 0x8f opcode
    then Flow.cond_jump
    else Flow.none

unfoldable pub is_jump_operand : Addressing → Bool
is_jump_operand Addressing.j = true
is_jump_operand _ = false

-- Everything that takes a BND prefix is control flow.
pub flow_of-is_branch :
    (f : Fields) (simd : Simd) → is_branch f simd ≡ true → flow_of f simd ≢ Flow.none
unfolding is_branch flow_of is_indirect
flow_of-is_branch f simd h = ground arith
