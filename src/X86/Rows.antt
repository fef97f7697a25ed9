-- ===== src/X86/Rows.antt =====
-- The macros by which src/arch/x86_64/x86_64_tables.cpp writes its rows, one helper each. Those of
-- buildPrefixed have a p in front of the source's name, those of buildThreeByte a t and those of
-- buildVex an x.
use voidwalk.Common.{
  ℕ, ◌+◌, ◌*◌, ◌-◌, ℤ, pos, Bool, true, false, String, List, [], ◌∷◌, zero, suc, map,
}
use voidwalk.X86.Types.{
  Addressing, Size, TableOperand, op, no_operand, OpcodeInfo, empty_info, Default64, not_group,
  Write,
}
use voidwalk.X86.Opcode.{Opcode, code_of}
use voidwalk.X86.Operands.{op_none, op_m, op_v, op_w, op_p, op_q, op_i_b, op_v_dq, op_w_dq}

-- `OpcodeInfo{text, text16, hasRM, op1, op2, op3, group}`
abbrev pub row :
    String → String → Bool → TableOperand → TableOperand → TableOperand → ℤ → OpcodeInfo
row text text16 has_rm op1 op2 op3 group = record empty_info {
  text = text;
  text16 = text16;
  has_rm_byte = has_rm;
  operand0 = op1;
  operand1 = op2;
  operand2 = op3;
  group_number = group;
}

abbrev pub assign : ℕ → OpcodeInfo → Write
assign index info = (index, λ _. info)

-- `table[index].text64 = name`
abbrev pub name64 : ℕ → String → Write
name64 index name = (index, λ info. record info { text64 = name })

-- buildOpcodes
unfoldable pub pg16 :
    Opcode → String → String → Bool → TableOperand → TableOperand → TableOperand → ℤ → Write
unfolding code_of
pg16 name text text16 has_rm op1 op2 op3 group =
    assign (code_of name) (row text text16 has_rm op1 op2 op3 group)

unfoldable pub pg : Opcode → String → Bool → TableOperand → TableOperand → TableOperand → ℕ → Write
unfolding code_of
pg name text has_rm op1 op2 op3 group =
    assign (code_of name) (row text "" has_rm op1 op2 op3 (pos group))

unfoldable pub p16 :
    Opcode → String → String → Bool → TableOperand → TableOperand → TableOperand → Write
unfolding code_of
p16 name text text16 has_rm op1 op2 op3 =
    assign (code_of name) (row text text16 has_rm op1 op2 op3 not_group)

unfoldable pub p : Opcode → String → Bool → TableOperand → TableOperand → TableOperand → Write
unfolding code_of
p name text has_rm op1 op2 op3 = assign (code_of name) (row text "" has_rm op1 op2 op3 not_group)

unfoldable pub inv : Opcode → Write
unfolding code_of
inv name = (code_of name, λ info. record info { is_invalid = true })

unfoldable pub t64 : Opcode → String → Write
unfolding code_of
t64 name text = name64 (code_of name) text

unfoldable pub d64 : Opcode → Write
unfolding code_of
d64 name = (code_of name, λ info. record info { default64 = Default64.d64 })

unfoldable pub f64 : Opcode → Write
unfolding code_of
f64 name = (code_of name, λ info. record info { default64 = Default64.f64 })

-- buildGroup1 to buildGroup5
abbrev pub g : ℕ → String → Bool → TableOperand → TableOperand → TableOperand → ℕ → Write
g reg text has_rm op1 op2 op3 group = assign reg (row text "" has_rm op1 op2 op3 (pos group))

abbrev pub gt : ℕ → String → ℕ → Write
gt reg text group = g reg text true op_none op_none op_none group

-- buildX87Mem, buildX87Reg
abbrev pub fm : ℕ → String → Write
fm index text = assign index (row text "" true op_m op_none op_none not_group)

abbrev pub st : String → ℕ → TableOperand
st name i = op Addressing.st Size.none name

abbrev pub stack_register : ℕ → String
stack_register zero = "ST(0)"
stack_register (suc zero) = "ST(1)"
stack_register (suc (suc zero)) = "ST(2)"
stack_register (suc (suc (suc zero))) = "ST(3)"
stack_register (suc (suc (suc (suc zero)))) = "ST(4)"
stack_register (suc (suc (suc (suc (suc zero))))) = "ST(5)"
stack_register (suc (suc (suc (suc (suc (suc zero)))))) = "ST(6)"
stack_register i = "ST(7)"

abbrev pub st_i : ℕ → TableOperand
st_i i = op Addressing.st Size.none (stack_register i)

abbrev each_rm : (ℕ → Write) → List Write
each_rm f = map f (0 ∷ 1 ∷ 2 ∷ 3 ∷ 4 ∷ 5 ∷ 6 ∷ 7 ∷ [])

abbrev pub row2 : ℕ → ℕ → String → (ℕ → TableOperand) → (ℕ → TableOperand) → List Write
row2 o reg text p0 p1 =
    each_rm (λ i. assign (o * 64 + reg * 8 + i) (row text "" true (p0 i) (p1 i) op_none not_group))

abbrev pub row1 : ℕ → ℕ → String → (ℕ → TableOperand) → List Write
row1 o reg text p0 =
    each_rm (λ i. assign (o * 64 + reg * 8 + i) (row text "" true (p0 i) op_none op_none not_group))

abbrev pub one : ℕ → ℕ → ℕ → String → List Write
one o reg rm text =
    assign (o * 64 + reg * 8 + rm) (row text "" true op_none op_none op_none not_group) ∷ []

-- buildTwoByteOpcodes
abbrev pub t16 : ℕ → String → String → Bool → TableOperand → TableOperand → TableOperand → Write
t16 index text text16 has_rm op1 op2 op3 =
    assign index (row text text16 has_rm op1 op2 op3 not_group)

abbrev pub t : ℕ → String → Bool → TableOperand → TableOperand → TableOperand → Write
t index text has_rm op1 op2 op3 = assign index (row text "" has_rm op1 op2 op3 not_group)

abbrev pub tg : ℕ → String → Bool → TableOperand → TableOperand → TableOperand → ℕ → Write
tg index text has_rm op1 op2 op3 group = assign index (row text "" has_rm op1 op2 op3 (pos group))

abbrev pub vw : ℕ → String → Write
vw index text = t index text true op_v op_w op_none

abbrev pub pq : ℕ → String → Write
pq index text = t index text true op_p op_q op_none

-- buildPrefixed: the slot is 0, 1 or 2 for 66, F3, F2.
abbrev pub slot_prefix : ℕ → ℕ
slot_prefix zero = 0x66
slot_prefix (suc zero) = 0xf3
slot_prefix slot = 0xf2

abbrev pub pr : ℕ → ℕ → String → TableOperand → TableOperand → TableOperand → Write
pr slot index text op1 op2 op3 =
    let info = row text "" true op1 op2 op3 not_group in
    assign (slot * 256 + index) (record info { mandatory_prefix = slot_prefix slot })

abbrev pub pvw : ℕ → ℕ → String → Write
pvw slot index text = pr slot index text op_v op_w op_none

abbrev pub pwv : ℕ → ℕ → String → Write
pwv slot index text = pr slot index text op_w op_v op_none

-- buildTwoByteGroups
abbrev pub group_t : ℕ → ℕ → String → Write
group_t group reg text =
    assign ((group - 8) * 8 + reg) (row text "" true op_none op_none op_none (pos group))

abbrev pub group_m : ℕ → ℕ → String → Write
group_m group reg text =
    assign ((group - 8) * 8 + reg) (row text "" true op_m op_none op_none (pos group))

-- buildThreeByte: `opcode_map` is 2 or 3.
abbrev pub tpq : ℕ → ℕ → String → TableOperand → Write
tpq opcode_map index text op3 =
    assign ((opcode_map - 2) * 512 + index) (row text "" true op_p op_q op3 not_group)

abbrev pub tr : ℕ → ℕ → String → String → TableOperand → TableOperand → TableOperand → Write
tr opcode_map index text text64 op1 op2 op3 =
    let info = row text "" true op1 op2 op3 not_group in
    assign ((opcode_map - 2) * 512 + 256 + index)
      (record info { text64 = text64; mandatory_prefix = 0x66 })

abbrev pub tvw : ℕ → ℕ → String → Write
tvw opcode_map index text = tr opcode_map index text "" op_v op_w op_none

abbrev pub tvwi : ℕ → ℕ → String → Write
tvwi opcode_map index text = tr opcode_map index text "" op_v op_w op_i_b

-- buildThreeDNow
abbrev pub dn : ℕ → String → Write
dn index text = assign index (row text "" true op_p op_q no_operand not_group)

-- buildVex
abbrev pub xrw : ℕ → ℕ → String → String → Bool → TableOperand → TableOperand → TableOperand → Write
xrw slot index text text64 nds op1 op2 op3 =
    let info = row text "" true op1 op2 op3 not_group in
    assign (slot * 256 + index) (record info { text64 = text64; nds = nds })

abbrev pub xr : ℕ → ℕ → String → Bool → TableOperand → TableOperand → TableOperand → Write
xr slot index text nds op1 op2 op3 = xrw slot index text "" nds op1 op2 op3

abbrev pub xrg : ℕ → ℕ → ℕ → TableOperand → TableOperand → TableOperand → Write
xrg slot index group op1 op2 op3 =
    assign (slot * 256 + index) (row "GRP" "" true op1 op2 op3 (pos group))

abbrev pub xvhw : ℕ → ℕ → String → Write
xvhw slot index text = xr slot index text true op_v op_w op_none

abbrev pub xvhwi : ℕ → ℕ → String → Write
xvhwi slot index text = xr slot index text true op_v op_w op_i_b

abbrev pub xvhws : ℕ → ℕ → String → Write
xvhws slot index text = xr slot index text true op_v_dq op_w_dq op_none

abbrev pub xvhwc : ℕ → ℕ → String → Write
xvhwc slot index text = xr slot index text true op_v op_w_dq op_none

abbrev pub xvw : ℕ → ℕ → String → Write
xvw slot index text = xr slot index text false op_v op_w op_none

abbrev pub xvwi : ℕ → ℕ → String → Write
xvwi slot index text = xr slot index text false op_v op_w op_i_b

abbrev pub xvws : ℕ → ℕ → String → Write
xvws slot index text = xr slot index text false op_v_dq op_w_dq op_none

abbrev pub xvwx : ℕ → ℕ → String → Write
xvwx slot index text = xr slot index text false op_v op_w_dq op_none

abbrev pub xwv : ℕ → ℕ → String → Write
xwv slot index text = xr slot index text false op_w op_v op_none

abbrev pub fp : ℕ → String → String → Write
fp index ps pd = xrw 5 index ps pd true op_v op_w op_none

abbrev pub fs : ℕ → String → String → Write
fs index ss sd = xrw 5 index ss sd true op_v_dq op_w_dq op_none
