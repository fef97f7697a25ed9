-- ===== src/X86/Merge.antt =====
-- A group's row: merge of src/arch/x86_64/x86_64_tables.cpp.
use voidwalk.Common.{Bool, true, false, ◌&&◌, if◌then◌else◌, is_empty}
use voidwalk.X86.Types.{Addressing, Size, TableOperand, op, OpcodeInfo, Default64}

unfoldable pub is_default : Default64 → Bool
is_default Default64.no_default = true
is_default Default64.d64 = false
is_default Default64.f64 = false

unfoldable pub is_unsized : Size → Bool
is_unsized Size.none = true
is_unsized _ = false

unfoldable pub is_unused : Addressing → Bool
is_unused Addressing.none = true
is_unused _ = false

unfoldable is_immediate : Addressing → Bool
is_immediate Addressing.i = true
is_immediate _ = false

unfoldable is_v : Size → Bool
is_v Size.v = true
is_v _ = false

-- One turn of merge's loop, from the outer row's operand and the entry's.
unfoldable merge_operand : Size → TableOperand → TableOperand → TableOperand
unfolding is_unused is_immediate is_v is_unsized
merge_operand op_size outer entry =
    let mode = entry.addressing_mode in
    let inherited = if is_immediate mode && is_v op_size then Size.z else op_size in
    if is_unused mode
    then outer
    else op mode (if is_unsized entry.operand_size then inherited else entry.operand_size)
        entry.value

unfoldable pub merge : OpcodeInfo → OpcodeInfo → OpcodeInfo
unfolding is_default is_unsized merge_operand
merge outer entry =
    let outer_size = outer.operand0.operand_size in
    let op_size = if is_unsized outer_size then entry.operand0.operand_size else outer_size in
    if is_empty entry.text then entry else record outer {
      text = entry.text;
      text16 = entry.text16;
      default64 = if is_default entry.default64 then outer.default64 else entry.default64;
      operand0 = merge_operand op_size outer.operand0 entry.operand0;
      operand1 = merge_operand op_size outer.operand1 entry.operand1;
      operand2 = merge_operand op_size outer.operand2 entry.operand2;
    }
