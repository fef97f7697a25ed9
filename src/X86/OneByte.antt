-- ===== src/X86/OneByte.antt =====
-- The one-byte opcodes: the tables of src/arch/x86_64/x86_64_tables.cpp that opcodeTable() and the
-- groups 1 to 5 stand on, and the row that an opcode and its ModRM byte select.
mod Arithmetic
mod Stack
mod Moves
mod Control
mod LongMode
pub mod Groups
use voidwalk.Common.{
  ℕ, ◌/◌, ◌%◌, ℤ, pos, negsuc, zero, suc, Bool, true, false, not, ◌&&◌, ◌||◌, String, List, [], ◌∷◌,
  if◌then◌else◌, ◌==◌, is_empty, Result, ok, err, Error, runtime_error, ◌>>=◌,
}
use voidwalk.X86.Types.{
  Addressing, Size, TableOperand, op, no_operand, OpcodeInfo, empty_info, Default64, not_group,
  is_positive, Write, row_at,
}
use voidwalk.X86.Operands.{op_none, op_e, op_e_b, op_e_v, op_e_d, op_g_v, op_i_b, op_j_z}
use voidwalk.X86.Rows.{row, g, gt}
use voidwalk.X86.Merge.{merge}
use voidwalk.X86.X87.{is_x87, x87_resolved_info}
use Arithmetic.{opcodes_arithmetic}
use Stack.{opcodes_stack}
use Moves.{opcodes_moves}
use Control.{opcodes_control}
use LongMode.{removed_in_long_mode, names_in_long_mode, default_sizes}

-- The statements of buildOpcodes run in this order, so that a later one changes the row that an
-- earlier one left.
unfoldable pub opcode_table : ℕ → OpcodeInfo
unfolding opcodes_arithmetic opcodes_stack opcodes_moves opcodes_control removed_in_long_mode
    names_in_long_mode default_sizes row_at
opcode_table opcode =
    let rows1 = row_at opcodes_arithmetic empty_info opcode in
    let rows2 = row_at opcodes_stack rows1 opcode in
    let rows3 = row_at opcodes_moves rows2 opcode in
    let rows4 = row_at opcodes_control rows3 opcode in
    let removed = row_at removed_in_long_mode rows4 opcode in
    let named = row_at names_in_long_mode removed opcode in row_at default_sizes named opcode

prefix_in : List (ℕ × String) → ℕ → String
prefix_in [] opcode = ""
prefix_in ((prefix, text) ∷ prefixes) opcode =
    if prefix == opcode then text else prefix_in prefixes opcode

-- buildPrefixes
unfoldable pub prefix_table : ℕ → String
unfolding prefix_in
prefix_table opcode =
    prefix_in
      ((0xf0, "LOCK")
        ∷ (0xf2, "REPNE")
        ∷ (0xf3, "REP")
        ∷ (0x2e, "CS:")
        ∷ (0x36, "SS:")
        ∷ (0x3e, "DS:")
        ∷ (0x26, "ES:")
        ∷ (0x64, "FS:")
        ∷ (0x65, "GS:")
        ∷ (0x66, "OPSIZE")
        ∷ (0x67, "ADDRSIZE")
        ∷ [])
      opcode

unfoldable pub is_prefix : ℕ → Bool
unfolding prefix_table
is_prefix opcode = not (is_empty (prefix_table opcode))

group1 : List Write
group1 =
    gt 0 "ADD" 1
    ∷ gt 1 "OR" 1
    ∷ gt 2 "ADC" 1
    ∷ gt 3 "SBB" 1
    ∷ gt 4 "AND" 1
    ∷ gt 5 "SUB" 1
    ∷ gt 6 "XOR" 1
    ∷ gt 7 "CMP" 1
    ∷ []

group2 : List Write
group2 =
    gt 0 "ROL" 2
    ∷ gt 1 "ROR" 2
    ∷ gt 2 "RCL" 2
    ∷ gt 3 "RCR" 2
    ∷ gt 4 "SHL" 2
    ∷ gt 5 "SHR" 2
    ∷ gt 6 "SAL" 2
    ∷ gt 7 "SAR" 2
    ∷ []

group3 : List Write
group3 =
    g 0 "TEST" true op_e (op Addressing.i Size.none "") op_none 3
    ∷ g 1 "TEST" true op_e (op Addressing.i Size.none "") op_none 3
    ∷ g 2 "NOT" true op_e op_none op_none 3
    ∷ g 3 "NEG" true op_e op_none op_none 3
    ∷ g 4 "MUL" true op_e op_none op_none 3
    ∷ g 5 "IMUL" true op_e op_none op_none 3
    ∷ g 6 "DIV" true op_e op_none op_none 3
    ∷ g 7 "IDIV" true op_e op_none op_none 3
    ∷ []

group4 : List Write
group4 = g 0 "INC" true op_e_b op_none op_none 4 ∷ g 1 "DEC" true op_e_b op_none op_none 4 ∷ []

defaults_to : Default64 → ℕ → Write
defaults_to default index = (index, λ info. record info { default64 = default })

group5 : List Write
unfolding defaults_to
group5 =
    g 0 "INC" true op_e_v op_none op_none 5
    ∷ g 1 "DEC" true op_e_v op_none op_none 5
    ∷ g 2 "CALL" true op_e_v op_none op_none 5
    ∷ g 3 "CALLF" true (op Addressing.m Size.p "") op_none op_none 5
    ∷ g 4 "JMP" true op_e_v op_none op_none 5
    ∷ g 5 "JMPF" true (op Addressing.m Size.p "") op_none op_none 5
    ∷ g 6 "PUSH" true op_e_v op_none op_none 5
    ∷ defaults_to Default64.f64 2
    ∷ defaults_to Default64.f64 4
    ∷ defaults_to Default64.d64 6
    ∷ []

group_no_of : ℕ → ℤ
unfolding opcode_table
group_no_of opcode = (opcode_table opcode).group_number

unfoldable pub is_group : ℕ → Bool
unfolding opcode_table
is_group opcode = is_positive (opcode_table opcode).group_number

group_rows : ℤ → Result (List Write)
unfolding group1 group2 group3 group4 group5
group_rows (pos n) =
    if n == 1
    then ok group1
    else if n == 2
    then ok group2
    else if n == 3
    then ok group3
    else if n == 4
    then ok group4
    else if n == 5
    then ok group5
    else err (runtime_error "Opcode is not an extension group..")
group_rows (negsuc n) = err (runtime_error "Opcode is not an extension group..")

unfoldable pub group_table_of : ℕ → Result (List Write)
unfolding group_rows group_no_of
group_table_of opcode = group_rows (group_no_of opcode)

unfoldable pub group_entry_of : ℕ → ℕ → Result OpcodeInfo
unfolding group_table_of row_at
group_entry_of opcode reg = group_table_of opcode >>= λ rows. ok (row_at rows empty_info (reg % 8))

-- The rows MOVSXD, XABORT and XBEGIN of resolvedInfo
movsxd : OpcodeInfo
movsxd = row "MOVSXD" "" true op_g_v op_e_d no_operand not_group

xabort : OpcodeInfo
xabort = row "XABORT" "" true op_i_b no_operand no_operand not_group

xbegin : OpcodeInfo
xbegin = row "XBEGIN" "" true op_j_z no_operand no_operand not_group

unfoldable pub resolved_info : ℕ → ℕ → Bool → Result OpcodeInfo
unfolding movsxd xabort xbegin opcode_table is_group group_entry_of merge
resolved_info opcode mod_rm is_64bit =
    if is_x87 opcode
    then ok (x87_resolved_info opcode mod_rm)
    else if is_64bit && (opcode == 0x63)
    then ok movsxd
    else if (mod_rm == 0xf8) && (opcode == 0xc6)
    then ok xabort
    else if (mod_rm == 0xf8) && (opcode == 0xc7)
    then ok xbegin
    else if not (is_group opcode)
    then ok (opcode_table opcode)
    else (group_entry_of opcode (mod_rm / 8 % 8) >>= λ entry.
        ok (merge (opcode_table opcode) entry))
