-- ===== src/X86/Decoder.antt =====
-- X86Decoder::decodeLine of src/arch/x86_64/x86_64_decoder.cpp, one definition for each part that
-- the source marks by a comment.
pub mod Bytes
pub mod Prefix
pub mod Operands
pub mod Reads
pub mod Consumes
pub mod Phases
pub mod Progress
use Prim.{Unit, tt}
use voidwalk.Common.{
  ℕ, zero, suc, ◌+◌, ◌-◌, ◌*◌, ◌/◌, ◌%◌, ◌^◌, ◌==◌, ltb, leb, if◌then◌else◌, Bool, true, false, not,
  ◌&&◌, ◌||◌, List, [], ◌∷◌, ◌++◌, length, Option, none, some, Error, length_error, runtime_error,
  file_changed, out_of_fuel, Result, ok, err, mod64, add64,
}
use voidwalk.AddressSpace.{AddressSpace}
use voidwalk.ChunkStore.{ChunkStore, VectorPolicy, chunk_size, push_back}
use voidwalk.X86.Types.{Addressing, Size, TableOperand, OpcodeInfo, Default64, Simd, operands}
use voidwalk.X86.OneByte.{opcode_table, is_prefix, resolved_info}
use voidwalk.X86.TwoByte.{
  two_byte_table, two_byte_resolved_info, three_byte_resolved_info, three_d_now_table,
}
use voidwalk.X86.Vex.{vex_resolved_info}
use Bytes.{
  Fields, Decoding, start, Outcome, done, too_long, failed, Step, ◌>>=◌, ◌>>◌, pure, get, modify,
  modify_simd, set_op_size_prefix, set_addr_size_prefix, lift, next_byte, peek, read_little_endian,
}
use Prefix.{prefixes, read_opcode}
use Operands.{
  read_mod_rm, select_row, take_mandatory, set_widths, read_memory_operand, read_three_d_now,
  read_immediates,
}

-- The parameters of decodeLine, less the store
module _ (contents : AddressSpace) (file_offset : ℕ) (is_64bit : Bool) where
  module _ (vaddr : ℕ) where
    unfoldable read_operands : Step Unit
    unfolding ◌>>=◌ get read_mod_rm select_row take_mandatory set_widths read_memory_operand
        read_three_d_now read_immediates
    read_operands = do
      mod_rm ← read_mod_rm contents file_offset is_64bit
      select_row contents file_offset is_64bit mod_rm
      take_mandatory contents file_offset is_64bit
      set_widths contents file_offset is_64bit
      read_memory_operand contents file_offset is_64bit mod_rm
      read_three_d_now contents file_offset is_64bit
      s ← get
      read_immediates contents file_offset is_64bit vaddr (operands s.fields.info)

    -- The body of the try block, up to `emit`, from the first byte on
    unfoldable decode_from : ℕ → Step Unit
    unfolding ◌>>=◌ modify prefixes read_opcode read_operands
    decode_from first = do
      current ← prefixes contents file_offset is_64bit 16 first
      goes_on ← read_opcode contents file_offset is_64bit current
      if goes_on then read_operands else modify (λ f. record f { is_invalid = true })

    unfoldable pub decode_instruction : Step Unit
    unfolding ◌>>=◌ decode_from
    decode_instruction = do first ← next_byte contents file_offset; decode_from first

-- What `std::make_unique<x86_64>(fields, simd)` is given. A slot of the store is such a pointer, null
-- until it is written.
pub record Instruction : Type 0 where
  pub machine_code : List ℕ
  pub fields : Fields
  pub simd : Simd

-- The lambda emit
unfoldable emit :
    VectorPolicy
    → ℕ
    → ChunkStore (Option Instruction)
    → Decoding
    → ℕ × ChunkStore (Option Instruction)
unfolding push_back
emit policy file_offset store s = (
  file_offset + length s.bytes,
  push_back chunk_size policy none store
      (some (record { machine_code = s.bytes; fields = s.fields; simd = s.simd })),
)

unfoldable mark_invalid : Decoding → Decoding
mark_invalid s = let f = s.fields in record s { fields = record f { is_invalid = true } }

-- The catch clauses
unfoldable finish :
    VectorPolicy
    → ℕ
    → ChunkStore (Option Instruction)
    → Outcome Unit
    → Result (ℕ × ChunkStore (Option Instruction))
unfolding emit mark_invalid
finish policy file_offset store (done _ s) = ok (emit policy file_offset store s)
finish policy file_offset store (too_long s) = ok (emit policy file_offset store (mark_invalid s))
finish policy file_offset store (failed (length_error _)) = ok (file_offset, store)
finish policy file_offset store (failed e) = err e

unfoldable pub decode_line :
    VectorPolicy
    → AddressSpace
    → Bool
    → ℕ
    → ℕ
    → ChunkStore (Option Instruction)
    → Result (ℕ × ChunkStore (Option Instruction))
unfolding finish decode_instruction
decode_line policy contents is_64bit file_offset vaddr store =
    finish policy file_offset store
      (decode_instruction contents file_offset is_64bit vaddr (start is_64bit))
