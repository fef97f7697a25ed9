-- ===== src/Examples/Decoding.antt =====
-- Runs of the decoder and its theorems on a few bytes of code: src/arch/x86_64.
use voidwalk.Common.{ltb, ℕ, ◌*◌, ◌≡◌, refl, true, List, [], ◌∷◌, String, Option, none, some, ok}
use Prim.{Unit}
use voidwalk.ChunkStore.{VectorPolicy, empty_store}
use voidwalk.X86.Types.{OpcodeInfo}
use voidwalk.AddressSpace.{read_u8}
use voidwalk.Common.{is_empty}
use voidwalk.X86.Rows.{f64, d64, t64, inv, pg, p, p16}
use voidwalk.X86.Decoder.Operands.{is_encoded, extends, is_f64, is_d64}
use voidwalk.X86.Decoder.Bytes.{next_byte}
use voidwalk.X86.OneByte.{resolved_info}
use voidwalk.X86.OneByte.Groups.{resolved_info-total}
use voidwalk.X86.Decoder.{decode_instruction, decode_line}
use voidwalk.X86.Decoder.Bytes.{Outcome, done, too_long, failed, start}
use voidwalk.X86.Decoder.Progress.{Decoded, decode_line-Decoded}
use voidwalk.Examples.Images.{image}

-- The bytes consumed, the row's name, the immediates and the operand size
text_of : Outcome Unit → Option (List ℕ × String × List ℕ × ℕ)
text_of (done _ s) = some (s.bytes, s.fields.info.text, s.fields.immediates, s.fields.op_size)
text_of (too_long s) = none
text_of (failed e) = none

decode64 : List ℕ → Option (List ℕ × String × List ℕ × ℕ)
unfolding text_of decode_instruction
decode64 bytes = text_of (decode_instruction (image bytes) 0 true 0x1000 (start true))

-- SUB RSP, 28h
sub_rsp :
    decode64 (0x48 ∷ 0x83 ∷ 0xec ∷ 0x28 ∷ [])
    ≡ some (0x48 ∷ 0x83 ∷ 0xec ∷ 0x28 ∷ [], "SUB", 0x28 ∷ [], 64)
unfolding decode64 next_byte read_u8 is_empty f64 d64 t64 inv pg p p16 is_encoded extends is_f64
    is_d64
sub_rsp = refl

-- ADD AL, AL, the first row of the table
add_al : decode64 (0x00 ∷ 0xc0 ∷ []) ≡ some (0x00 ∷ 0xc0 ∷ [], "ADD", [], 32)
unfolding decode64 next_byte read_u8 is_empty f64 d64 t64 inv pg p p16 is_encoded extends is_f64
    is_d64
add_al = refl

-- ADD with a SIB and a displacement
add_memory :
    decode64 (0x01 ∷ 0x44 ∷ 0x24 ∷ 0x10 ∷ []) ≡ some (0x01 ∷ 0x44 ∷ 0x24 ∷ 0x10 ∷ [], "ADD", [], 32)
unfolding decode64 next_byte read_u8 is_empty f64 d64 t64 inv pg p p16 is_encoded extends is_f64
    is_d64
add_memory = refl

-- CALL to its own address: the target counts from the end of the instruction.
call_back :
    decode64 (0xe8 ∷ 0xfb ∷ 0xff ∷ 0xff ∷ 0xff ∷ [])
    ≡ some (0xe8 ∷ 0xfb ∷ 0xff ∷ 0xff ∷ 0xff ∷ [], "CALL", 0x1000 ∷ [], 64)
unfolding decode64 next_byte read_u8 is_empty f64 d64 t64 inv pg p p16 is_encoded extends is_f64
    is_d64
call_back = refl

-- MOVDQA with a SIB and a displacement
movdqa :
    decode64 (0x66 ∷ 0x0f ∷ 0x6f ∷ 0x44 ∷ 0x24 ∷ 0x10 ∷ 0xc3 ∷ [])
    ≡ some (0x66 ∷ 0x0f ∷ 0x6f ∷ 0x44 ∷ 0x24 ∷ 0x10 ∷ [], "MOVDQA", [], 32)
unfolding decode64 next_byte read_u8 is_empty f64 d64 t64 inv pg p p16 is_encoded extends is_f64
    is_d64
movdqa = refl

vzeroupper :
    decode64 (0xc5 ∷ 0xf8 ∷ 0x77 ∷ []) ≡ some (0xc5 ∷ 0xf8 ∷ 0x77 ∷ [], "VZEROUPPER", [], 32)
unfolding decode64 next_byte read_u8 is_empty f64 d64 t64 inv pg p p16 is_encoded extends is_f64
    is_d64
vzeroupper = refl

truncated : decode64 (0x0f ∷ 0xba ∷ []) ≡ none
unfolding decode64 next_byte read_u8 is_empty f64 d64 t64 inv pg p p16 is_encoded extends is_f64
    is_d64
truncated = refl

resolved_info-total_example : (info : OpcodeInfo) × (resolved_info 0x80 0xc1 true ≡ ok info)
resolved_info-total_example = resolved_info-total 0x80 0xc1 true

abbrev doubling : VectorPolicy
doubling = record { grown = λ n. 2 * n; shrunk = λ n capacity. n; grants = λ table n. ltb n 1000 }

decode_line-Decoded_example :
    Decoded doubling
      (image (0x90 ∷ 0xc3 ∷ []))
      1
      empty_store
      (decode_line doubling (image (0x90 ∷ 0xc3 ∷ [])) true 1 0x1001 empty_store)
decode_line-Decoded_example =
    decode_line-Decoded doubling (image (0x90 ∷ 0xc3 ∷ [])) 1 empty_store true 0x1001
