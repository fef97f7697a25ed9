-- ===== src/X86/Render.antt =====
-- The constructor of x86_64, src/arch/x86_64/x86_64_instruction.hpp, which renders what the decoder
-- found, and the members of src/arch/instruction.hpp that it fills.
pub mod Memory
pub mod Operand
pub mod Branches
pub mod MachineCode
pub mod Encoded
pub mod Immediates
use voidwalk.Common.{
  ℕ, ◌==◌, if◌then◌else◌, Bool, true, false, not, ◌&&◌, ◌||◌, String, is_empty, List, [], ◌∷◌, ◌++◌,
  Text, codes, hex_byte, bytes_eq, ltb, leb, ◌%◌, zero, suc,
}
use voidwalk.X86.Types.{OpcodeInfo, Simd, TableOperand, operands, Addressing}
use voidwalk.X86.Decoder.{Instruction}
use voidwalk.X86.Decoder.Bytes.{Fields}
use Memory.{segment_text, has_notrack, is_indirect}
use Operand.{operand_list, operand_texts, Printed, immediate}
use Branches.{Flow, flow_of, is_branch, is_jump_operand}

-- The members of Instruction, as the frontends see them.
pub record Row : Type 0 where
  pub machine_code : Text
  pub instruction_text : Text
  pub flow : Flow
  pub target : ℕ

unfoldable pub machine_code_text : List ℕ → Text
unfolding hex_byte
machine_code_text [] = []
machine_code_text (b ∷ bytes) = hex_byte b ++ codes " " ++ machine_code_text bytes

-- The mnemonic by the operand size
unfoldable pub mnemonic_of : Fields → Simd → String
unfolding is_empty
mnemonic_of f simd =
    let text64 = f.info.text64 in
    let text16 = f.info.text16 in
    let sized =
      if ((f.op_size == 64) || not (simd.w_bit == 0)) && not (is_empty text64)
      then text64
      else if (f.op_size == 16) && not (is_empty text16)
      then text16
      else f.info.text in
    if (simd.map == 0) && (f.opcode == 0xe3)
    then (if f.addr_size == 64 then "JRCXZ" else if f.addr_size == 32 then "JECXZ" else "JCXZ")
    else sized

abbrev first_two : Text → Text
first_two (a ∷ b ∷ rest) = a ∷ b ∷ []
first_two text = text

-- The prefix words in front of the mnemonic
unfoldable pub prefix_words : Fields → Simd → Bool → Text
unfolding is_branch has_notrack segment_text
prefix_words f simd segment_used =
    (if f.has_lock then codes "LOCK " else [])
    ++ (if f.rep_prefix == 0
        then []
        else if f.rep_prefix == 0xf3
        then codes "REP "
        else if is_branch f simd
        then codes "BND "
        else codes "REPNE ")
    ++ (if has_notrack f simd then codes "NOTRACK " else [])
    ++ (if bytes_eq (segment_text f simd) [] || segment_used
        then []
        else first_two (segment_text f simd) ++ codes " ")

unfoldable pub is_rejected : Fields → Bool
unfolding is_empty
is_rejected f = f.is_invalid || is_empty f.info.text || bytes_eq (codes f.info.text) (codes "(bad)")

-- From "LOCK" to the operands
unfoldable pub line_text : Fields → Simd → Text
unfolding mnemonic_of prefix_words operand_texts operand_list
line_text f simd =
    let printed = operand_texts f simd (operand_list f) in
    prefix_words f simd printed.segment_used
    ++ codes (mnemonic_of f simd)
    ++ codes " \t"
    ++ printed.text

-- The first operand of a direct branch is its target.
unfoldable pub target_of : Fields → Simd → ℕ
unfolding flow_of immediate is_jump_operand
target_of f simd = elim (flow_of f simd) [
  | Flow.none ↦ 0
  | _ ↦ if is_jump_operand f.info.operand0.addressing_mode then immediate f 0 else 0
]

unfoldable pub render : Instruction → Row
unfolding machine_code_text is_rejected line_text target_of flow_of
render instruction =
    let f = instruction.fields in
    let simd = instruction.simd in
    if is_rejected f
    then record {
      machine_code = machine_code_text instruction.machine_code;
      instruction_text = codes "(bad)";
      flow = Flow.none;
      target = 0;
    }
    else record {
      machine_code = machine_code_text instruction.machine_code;
      instruction_text = line_text f simd;
      flow = flow_of f simd;
      target = target_of f simd;
    }
