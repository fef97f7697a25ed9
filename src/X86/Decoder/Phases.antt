-- ===== src/X86/Decoder/Phases.antt =====
-- Each part of the decoder of src/arch/x86_64/x86_64_decoder.cpp reads its bytes in order, and throws
-- nothing of its own.
use voidwalk.Common.{ℕ, List, [], ◌∷◌, Bool}
use Prim.{tt}
use voidwalk.AddressSpace.{AddressSpace}
use voidwalk.X86.Types.{Addressing, TableOperand}
use voidwalk.X86.Decoder.Bytes.{skip, when}
use voidwalk.X86.Decoder.Prefix.{escape, vex_prefix, is_vex, read_opcode, note_prefix}
use voidwalk.X86.Decoder.Operands.{
  read_mod_rm, take_mandatory, set_widths, read_sib, read_displacement, read_memory_operand,
  read_three_d_now, immediate_value, read_immediate, read_immediates,
}
use voidwalk.X86.Decoder.Bytes.{Step, Fields}
use voidwalk.X86.Decoder.Consumes.{
  Consumes, Consumes-pure, Consumes-get, Consumes-modify, Consumes-modify_simd,
  Consumes-set_op_size, Consumes-set_addr_size, Consumes-if, Consumes-bind, Consumes-peek,
  Consumes-next_byte, Consumes-read_little_endian,
}

ruleset step_rules = (
  Consumes-pure, Consumes-get, Consumes-modify, Consumes-modify_simd, Consumes-set_op_size,
  Consumes-set_addr_size, Consumes-if, Consumes-bind, Consumes-peek, Consumes-next_byte,
  Consumes-read_little_endian,
)

module _ (contents : AddressSpace) (offset least : ℕ) (is_64bit : Bool) where
  pub Consumes-note_prefix :
      (b : ℕ) → Consumes contents offset least (note_prefix contents offset is_64bit b)
  unfolding note_prefix
  Consumes-note_prefix b = search (step_rules) depth 12

  Consumes-escape : Consumes contents offset least (escape contents offset is_64bit)
  unfolding escape when skip
  Consumes-escape = search (step_rules) depth 16

  Consumes-vex_prefix :
      (b : ℕ) → Consumes contents offset least (vex_prefix contents offset is_64bit b)
  unfolding vex_prefix
  Consumes-vex_prefix b = search (step_rules) depth 16

  Consumes-is_vex : (b : ℕ) → Consumes contents offset least (is_vex contents offset is_64bit b)
  unfolding is_vex
  Consumes-is_vex b = search (step_rules) depth 16

  pub Consumes-read_opcode :
      (b : ℕ) → Consumes contents offset least (read_opcode contents offset is_64bit b)
  unfolding read_opcode
  Consumes-read_opcode b =
      search (step_rules, Consumes-escape, Consumes-vex_prefix, Consumes-is_vex) depth 16

  pub Consumes-read_mod_rm : Consumes contents offset least (read_mod_rm contents offset is_64bit)
  unfolding read_mod_rm
  Consumes-read_mod_rm = search (step_rules) depth 16

  pub Consumes-take_mandatory :
      Consumes contents offset least (take_mandatory contents offset is_64bit)
  unfolding take_mandatory skip
  Consumes-take_mandatory = search (step_rules) depth 16

  pub Consumes-set_widths : Consumes contents offset least (set_widths contents offset is_64bit)
  unfolding set_widths
  Consumes-set_widths = search (step_rules) depth 16

  Consumes-read_sib : (b : ℕ) → Consumes contents offset least (read_sib contents offset is_64bit b)
  unfolding read_sib when skip
  Consumes-read_sib b = search (step_rules) depth 16

  Consumes-read_displacement :
      (n : ℕ) → Consumes contents offset least (read_displacement contents offset is_64bit n)
  unfolding read_displacement when skip
  Consumes-read_displacement n = search (step_rules) depth 16

  pub Consumes-read_memory_operand :
      (b : ℕ) → Consumes contents offset least (read_memory_operand contents offset is_64bit b)
  unfolding read_memory_operand when skip
  Consumes-read_memory_operand b =
      search (step_rules, Consumes-read_sib, Consumes-read_displacement) depth 16

  pub Consumes-read_three_d_now :
      Consumes contents offset least (read_three_d_now contents offset is_64bit)
  unfolding read_three_d_now when skip
  Consumes-read_three_d_now = search (step_rules) depth 16

  module _ (vaddr : ℕ) where
    value_of :
        (mode : Addressing) (m n o p : Step ℕ)
        → Consumes contents offset least m
        → Consumes contents offset least n
        → Consumes contents offset least o
        → Consumes contents offset least p
        → Consumes contents offset least
            (elim mode [ Addressing.a ↦ m | Addressing.j ↦ n | Addressing.i ↦ o | _ ↦ p ])
    value_of Addressing.a m n o p hm hn ho hp = hm
    value_of Addressing.j m n o p hm hn ho hp = hn
    value_of Addressing.i m n o p hm hn ho hp = ho
    value_of _ m n o p hm hn ho hp = hp

    Consumes-immediate_value :
        (f : Fields) (consumed : ℕ) (operand : TableOperand) (n value : ℕ)
        → Consumes contents offset least
            (immediate_value contents offset is_64bit vaddr f consumed operand n value)
    unfolding immediate_value
    Consumes-immediate_value f consumed operand n value =
        value_of operand.addressing_mode _ _ _ _ (search (step_rules) depth 16)
          (Consumes-pure contents offset least _) (Consumes-pure contents offset least _)
          (Consumes-pure contents offset least _)

    Consumes-read_immediate :
        (operand : TableOperand)
        → Consumes contents offset least (read_immediate contents offset is_64bit vaddr operand)
    unfolding read_immediate when skip
    Consumes-read_immediate operand = search (step_rules, Consumes-immediate_value) depth 20

    pub Consumes-read_immediates :
        (list : List TableOperand)
        → Consumes contents offset least (read_immediates contents offset is_64bit vaddr list)
    unfolding read_immediates skip
    Consumes-read_immediates [] = Consumes-pure contents offset least tt
    Consumes-read_immediates (operand ∷ rest) =
        Consumes-bind contents offset least _ _ (Consumes-read_immediate operand)
          (λ _. Consumes-read_immediates rest)
