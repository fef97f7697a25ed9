-- ===== src/X86/Render/Operand.antt =====
-- The list of operands and the text of each: the constructor of x86_64 in
-- src/arch/x86_64/x86_64_instruction.hpp.
use voidwalk.Common.{
  ℕ, zero, suc, ◌+◌, ◌*◌, ◌/◌, ◌%◌, ◌==◌, if◌then◌else◌, Bool, true, false, not, ◌||◌, List, [],
  ◌∷◌, ◌++◌, Text, codes, decimal, mod32,
}
use voidwalk.X86.Types.{Addressing, Size, TableOperand, Simd, op, operands}
use voidwalk.X86.Registers.{segment_of}
use voidwalk.X86.Decoder.Bytes.{Fields}
use voidwalk.X86.Render.Memory.{
  register_name, width_of, to_hex, vector_name, segment_text, memory_operand,
}

unfoldable pub is_g : Addressing → Bool
is_g Addressing.g = true
is_g _ = false

unfoldable pub is_none : Addressing → Bool
is_none Addressing.none = true
is_none _ = false

-- The operand H of a row with nds, from its first one
unfoldable pub vvvv_operand : TableOperand → TableOperand
unfolding is_g
vvvv_operand first =
    op Addressing.h (if is_g first.addressing_mode then Size.y else first.operand_size) ""

-- The operands before the first that is None
unfoldable pub listed : List TableOperand → List TableOperand
unfolding is_none
listed [] = []
listed (operand ∷ rest) =
    let others = listed rest in if is_none operand.addressing_mode then [] else operand ∷ others

unfoldable pub with_vvvv : Bool → List TableOperand → List TableOperand
unfolding vvvv_operand
with_vvvv nds [] = []
with_vvvv nds (first ∷ rest) = if nds then first ∷ vvvv_operand first ∷ rest else first ∷ rest

unfoldable pub operand_list : Fields → List TableOperand
unfolding listed with_vvvv
operand_list f = with_vvvv f.info.nds (listed (operands f.info))

-- `immediates[index]`: an entry that was not stored is 0.
unfoldable pub nth_or_zero : List ℕ → ℕ → ℕ
nth_or_zero [] i = 0
nth_or_zero (x ∷ xs) zero = x
nth_or_zero (x ∷ xs) (suc i) = nth_or_zero xs i

unfoldable pub immediate : Fields → ℕ → ℕ
unfolding nth_or_zero
immediate f i = nth_or_zero f.immediates i

-- The variables that the operands change: segmentUsed, immIndex, and the text so far.
pub record Printed : Type 0 where
  pub segment_used : Bool
  pub imm_index : ℕ
  pub text : Text

-- Whether an operand takes the next immediate, and whether it shows the segment
unfoldable pub takes_immediate : Addressing → Bool
takes_immediate Addressing.l = true
takes_immediate Addressing.i = true
takes_immediate Addressing.j = true
takes_immediate Addressing.o = true
takes_immediate Addressing.a = true
takes_immediate _ = false

unfoldable pub shows_segment : Fields → Addressing → Bool
shows_segment f Addressing.e = not (f.mod_field == 3)
shows_segment f Addressing.m = not (f.mod_field == 3)
shows_segment f Addressing.w = not (f.mod_field == 3)
shows_segment f Addressing.q = not (f.mod_field == 3)
shows_segment f Addressing.vsib = true
shows_segment f Addressing.o = true
shows_segment f Addressing.x = true
shows_segment f _ = false

unfoldable pub is_y : Size → Bool
is_y Size.y = true
is_y _ = false

-- The switch over the addressing mode, `value` being the next immediate.
unfoldable pub operand_text : Fields → Simd → TableOperand → ℕ → Text
unfolding register_name width_of to_hex vector_name segment_text memory_operand segment_of decimal
    is_y
operand_text f simd operand value =
    let size = operand.operand_size in
    let memory = segment_text f simd ++ memory_operand f simd in
    let general = λ (number : ℕ). register_name f number (width_of f size) in
    elim operand.addressing_mode [
      | Addressing.e ↦ if f.mod_field == 3 then general f.rm else memory
      | Addressing.m ↦ if f.mod_field == 3 then general f.rm else memory
      | Addressing.g ↦ general f.reg
      | Addressing.v ↦ vector_name simd f.reg size
      | Addressing.w ↦ if f.mod_field == 3 then vector_name simd f.rm size else memory
      | Addressing.h ↦ if is_y size then general simd.vvvv else vector_name simd simd.vvvv size
      | Addressing.l ↦ vector_name simd (value / 16 % (if f.is_64bit then 16 else 8)) size
      | Addressing.vsib ↦ memory
      | Addressing.p ↦ codes "MM" ++ decimal (f.reg % 8)
      | Addressing.q ↦ if f.mod_field == 3 then codes "MM" ++ decimal (f.rm % 8) else memory
      | Addressing.s ↦ codes (segment_of f.reg)
      | Addressing.z ↦ general (f.opcode % 8 + f.rex_prefix % 2 * 8)
      | Addressing.i ↦ to_hex value
      | Addressing.j ↦ to_hex value
      | Addressing.o ↦ segment_text f simd ++ codes "[" ++ to_hex value ++ codes "]"
      | Addressing.a ↦ to_hex (value / mod32) ++ codes ":" ++ to_hex (value % mod32)
      | Addressing.x ↦
          segment_text f simd ++ codes "[" ++ register_name f 6 f.addr_size ++ codes "]"
      | Addressing.y ↦ codes "[" ++ register_name f 7 f.addr_size ++ codes "]"
      | Addressing.eax ↦ general 0
      | Addressing.ecx ↦ general 1
      | Addressing.edx ↦ general 2
      | Addressing.ebx ↦ general 3
      | Addressing.esp ↦ general 4
      | Addressing.ebp ↦ general 5
      | Addressing.esi ↦ general 6
      | Addressing.edi ↦ general 7
      | _ ↦ codes operand.value
    ]

unfoldable pub print_operand : Fields → Simd → Bool → TableOperand → Printed → Printed
unfolding operand_text immediate takes_immediate shows_segment
print_operand f simd is_first operand printed =
    let mode = operand.addressing_mode in
    record {
      segment_used = printed.segment_used || shows_segment f mode;
      imm_index = if takes_immediate mode then suc printed.imm_index else printed.imm_index;
      text =
          printed.text
          ++ (if is_first then [] else codes ", ")
          ++ operand_text f simd operand (immediate f printed.imm_index);
    }

unfoldable pub print_operands : Fields → Simd → Bool → List TableOperand → Printed → Printed
unfolding print_operand
print_operands f simd is_first [] printed = printed
print_operands f simd is_first (operand ∷ rest) printed =
    print_operands f simd false rest (print_operand f simd is_first operand printed)

unfoldable pub operand_texts : Fields → Simd → List TableOperand → Printed
unfolding print_operands
operand_texts f simd list =
    print_operands f simd true list (record { segment_used = false; imm_index = 0; text = [] })
