-- ===== src/X86/Vex.antt =====
-- The VEX rows: vexTable() and vexResolvedInfo() of src/arch/x86_64/x86_64_tables.cpp. Index
-- ((map - 1) * 4 + pp) * 256 + opcode.
mod Map1
mod Map1Scalar
mod Map2
mod Map3
use voidwalk.Common.{
  ℕ, ◌+◌, ◌-◌, ◌*◌, ◌/◌, ◌%◌, Bool, true, false, not, ◌&&◌, ◌||◌, if◌then◌else◌, ◌==◌, ltb, leb,
  is_empty,
}
use voidwalk.X86.Types.{Size, OpcodeInfo, empty_info, is_positive, row_at, Simd}
use voidwalk.X86.TwoByte.{three_byte_row, in_group, group_index}
use Map1.{vex_0f, vex_66_0f}
use Map1Scalar.{vex_f3_0f, vex_f2_0f}
use Map2.{vex_66_0f38, vex_fma}
use Map3.{vex_bmi, vex_66_0f3a}

unfoldable pub vex_table : ℕ → OpcodeInfo
unfolding vex_0f vex_66_0f vex_f3_0f vex_f2_0f vex_66_0f38 vex_fma vex_bmi vex_66_0f3a row_at
vex_table index =
    let info1 = row_at vex_66_0f (row_at vex_0f empty_info index) index in
    let info2 = row_at vex_f2_0f (row_at vex_f3_0f info1 index) index in
    let info3 = row_at vex_fma (row_at vex_66_0f38 info2 index) index in
    row_at vex_66_0f3a (row_at vex_bmi info3 index) index

-- The gathers 0F 38 90 to 93 with W1
unfoldable gather_sizes : ℕ → OpcodeInfo → OpcodeInfo
gather_sizes opcode info =
    let first = info.operand0 in
    let second = info.operand1 in
    let third = info.operand2 in
    if opcode % 2 == 1
    then record info {
      operand0 = record first { operand_size = Size.none };
      operand2 = record third { operand_size = Size.none };
    }
    else record info { operand1 = record second { operand_size = Size.dq } }

unfoldable vex_changes : ℕ → ℕ → Simd → OpcodeInfo → OpcodeInfo
unfolding gather_sizes
vex_changes opcode mod_rm simd info =
    let memory = ltb mod_rm 0xc0 in
    let is_0f = simd.map == 1 in
    let zeroed =
      if is_0f && (opcode == 0x77) && not (simd.l_bit == 0)
      then record info { text = "VZEROALL" }
      else info in
    let merged =
      if is_0f && leb 2 simd.pp && ((opcode == 0x10) || (opcode == 0x11)) && memory
      then record zeroed { nds = false }
      else zeroed in
    let renamed =
      if is_0f && (simd.pp == 0) && not memory && (opcode == 0x12)
      then record merged { text = "VMOVHLPS" }
      else if is_0f && (simd.pp == 0) && not memory && (opcode == 0x16)
      then record merged { text = "VMOVLHPS" }
      else merged in
    if (simd.map == 2) && not (simd.w_bit == 0) && leb 0x90 opcode && leb opcode 0x93
    then gather_sizes opcode renamed
    else renamed

unfoldable pub vex_resolved_info : ℕ → ℕ → Simd → OpcodeInfo
unfolding vex_table three_byte_row vex_changes in_group group_index
vex_resolved_info opcode mod_rm simd =
    let info = vex_table (((simd.map - 1) * 4 + simd.pp) * 256 + opcode) in
    let changed = vex_changes opcode mod_rm simd info in
    if is_empty info.text
    then three_byte_row (simd.map == 3)
    else if not (is_positive changed.group_number)
    then changed
    else in_group changed (group_index changed.group_number) mod_rm
