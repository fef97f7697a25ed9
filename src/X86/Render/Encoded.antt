-- ===== src/X86/Render/Encoded.antt =====
-- How many immediates the operands of a row take: the loop over the operands in the constructor of
-- x86_64, src/arch/x86_64/x86_64_instruction.hpp.
use voidwalk.Common.{
  ℕ, suc, ◌+◌, ◌≤◌, if◌then◌else◌, Bool, true, false, Bool-cases, inl, inr, List, [], ◌∷◌, ◌≡◌,
  refl, ◌∙◌, arith,
}
use voidwalk.X86.Types.{TableOperand, Simd, operands}
use voidwalk.X86.Decoder.Bytes.{Fields}
use voidwalk.X86.Decoder.Operands.{is_encoded}
use voidwalk.X86.Render.Operand.{
  Printed, takes_immediate, print_operand, print_operands, operand_texts, operand_list, listed,
  with_vvvv, vvvv_operand, is_none,
}

-- How many operands stand in the bytes
unfoldable pub encoded : List TableOperand → ℕ
unfolding is_encoded
encoded [] = 0
encoded (operand ∷ rest) =
    let others = encoded rest in if is_encoded operand.addressing_mode then suc others else others

counted : (b : Bool) (i n : ℕ) → (if b then suc i else i) + n ≡ i + (if b then suc n else n)
counted true i n = omega arith
counted false i n = refl

imm_index-print_operands :
    (f : Fields) (simd : Simd) (is_first : Bool) (list : List TableOperand) (p : Printed)
    → (print_operands f simd is_first list p).imm_index ≡ p.imm_index + encoded list
unfolding print_operands print_operand encoded takes_immediate is_encoded
imm_index-print_operands f simd is_first [] p = omega arith
imm_index-print_operands f simd is_first (operand ∷ rest) p =
    imm_index-print_operands f simd false rest (print_operand f simd is_first operand p)
    ∙ counted (takes_immediate operand.addressing_mode) p.imm_index (encoded rest)

encoded-with_vvvv :
    (nds : Bool) (list : List TableOperand) → encoded (with_vvvv nds list) ≡ encoded list
unfolding with_vvvv encoded vvvv_operand is_encoded
encoded-with_vvvv nds [] = refl
encoded-with_vvvv false (operand ∷ rest) = refl
encoded-with_vvvv true (operand ∷ rest) = refl

kept : (b : Bool) {m n : ℕ} → m ≤ n → (if b then suc m else m) ≤ (if b then suc n else n)
kept true h = omega arith
kept false h = h

encoded-listed : (list : List TableOperand) → encoded (listed list) ≤ encoded list
unfolding listed encoded
encoded-listed [] = omega arith
encoded-listed (operand ∷ rest) = elim (Bool-cases (is_none operand.addressing_mode)) [
  | inl e ↦ rw e (omega arith)
  | inr e ↦ rw e (kept (is_encoded operand.addressing_mode) (encoded-listed rest))
]

pub imm_index-operand_texts :
    (f : Fields) (simd : Simd)
    → (operand_texts f simd (operand_list f)).imm_index ≤ encoded (operands f.info)
unfolding operand_texts operand_list
imm_index-operand_texts f simd = rw (imm_index-print_operands f simd true (operand_list f) _) (
    rw (encoded-with_vvvv f.info.nds (listed (operands f.info)))
      (omega (arith, encoded-listed (operands f.info))))
