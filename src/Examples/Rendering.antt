-- ===== src/Examples/Rendering.antt =====
-- Runs of the renderer of src/arch/x86_64/x86_64_instruction.hpp and its theorems.
use voidwalk.Common.{
  ℕ, ◌≤◌, ◌≡◌, refl, true, List, [], ◌∷◌, length, Option, none, some, arith, Text, codes, bytes_eq,
  digits_in, is_empty,
}
use Prim.{Unit, tt}
use voidwalk.AddressSpace.{read_u8}
use voidwalk.X86.Types.{OpcodeInfo, empty_info, Addressing, Size, op, operands, no_simd}
use voidwalk.X86.Rows.{f64, d64, t64, inv, pg, p, p16}
use voidwalk.X86.Decoder.{decode_instruction}
use voidwalk.X86.Decoder.Bytes.{Outcome, done, Decoding, start, next_byte, no_fields, when}
use voidwalk.X86.Decoder.Operands.{is_encoded, extends, is_f64, is_d64, read_immediates}
use voidwalk.X86.Registers.{register_of}
use voidwalk.X86.Render.{render, machine_code_text}
use voidwalk.X86.Render.Memory.{is_dq}
use voidwalk.X86.Render.Operand.{operand_texts, operand_list, is_y, is_none, is_g}
use voidwalk.X86.Render.MachineCode.{parse_bytes, parse_bytes-machine_code_text}
use voidwalk.X86.Render.Encoded.{encoded}
use voidwalk.X86.Render.Immediates.{imm_index-read_immediates}
use voidwalk.Examples.Images.{image}

-- The line of the instruction at the start of some bytes
line_of : Outcome Unit → Option (Text × Text × ℕ)
line_of (done _ s) =
    let row = render (record { machine_code = s.bytes; fields = s.fields; simd = s.simd }) in
    some (row.instruction_text, row.machine_code, row.target)
line_of _ = none

line64 : List ℕ → Option (Text × Text × ℕ)
unfolding line_of decode_instruction
line64 bytes = line_of (decode_instruction (image bytes) 0 true 0x1000 (start true))

sub_rsp :
    line64 (0x48 ∷ 0x83 ∷ 0xec ∷ 0x28 ∷ [])
    ≡ some (codes "SUB \tRSP, 0x28", codes "48 83 ec 28 ", 0)
unfolding line64 render next_byte read_u8 is_empty f64 d64 t64 inv pg p p16 is_encoded extends
    is_f64 is_d64 bytes_eq register_of digits_in is_y is_none is_g is_dq
sub_rsp = refl

-- A displacement off the stack pointer, with a segment
mov_fs :
    line64 (0x64 ∷ 0x8b ∷ 0x44 ∷ 0x24 ∷ 0xf8 ∷ [])
    ≡ some (codes "MOV \tEAX, FS:[RSP - 0x8]", codes "64 8b 44 24 f8 ", 0)
unfolding line64 render next_byte read_u8 is_empty f64 d64 t64 inv pg p p16 is_encoded extends
    is_f64 is_d64 bytes_eq register_of digits_in is_y is_none is_g is_dq
mov_fs = refl

call_back :
    line64 (0xe8 ∷ 0xfb ∷ 0xff ∷ 0xff ∷ 0xff ∷ [])
    ≡ some (codes "CALL \t0x1000", codes "e8 fb ff ff ff ", 0x1000)
unfolding line64 render next_byte read_u8 is_empty f64 d64 t64 inv pg p p16 is_encoded extends
    is_f64 is_d64 bytes_eq register_of digits_in is_y is_none is_g is_dq
call_back = refl

parse_bytes-machine_code_text_example :
    parse_bytes (machine_code_text (0x48 ∷ 0xff ∷ [])) ≡ some (0x48 ∷ 0xff ∷ [])
parse_bytes-machine_code_text_example =
    parse_bytes-machine_code_text (0x48 ∷ 0xff ∷ []) (omega arith, (omega arith, tt))

-- INT with its byte
abbrev int_row : OpcodeInfo
int_row = record empty_info { text = "INT"; operand0 = op Addressing.i Size.b "" }

abbrev before_byte : Decoding
before_byte =
    let f = no_fields true in
    record (start true) { fields = record f { info = int_row }; bytes = 0xcd ∷ [] }

abbrev after_byte : Decoding
after_byte =
    let f = no_fields true in
    record (start true) {
      fields = record f { info = int_row; immediates = 0x80 ∷ [] };
      bytes = 0xcd ∷ 0x80 ∷ [];
    }

reads_byte :
    read_immediates (image (0xcd ∷ 0x80 ∷ [])) 0 true 0x1000 (operands int_row) before_byte
    ≡ done tt after_byte
unfolding read_immediates next_byte read_u8 is_encoded extends when
reads_byte = refl

one_encoded : encoded (operands int_row) ≤ 2
unfolding encoded is_encoded
one_encoded = omega arith

imm_index-read_immediates_example :
    (operand_texts after_byte.fields no_simd (operand_list after_byte.fields)).imm_index
    ≤ length after_byte.fields.immediates
imm_index-read_immediates_example =
    imm_index-read_immediates (image (0xcd ∷ 0x80 ∷ [])) 0 true 0x1000 before_byte after_byte
      no_simd refl one_encoded reads_byte
