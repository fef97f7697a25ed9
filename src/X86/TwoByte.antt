-- ===== src/X86/TwoByte.antt =====
-- The two- and three-byte opcodes and 3DNow!: the tables of src/arch/x86_64/x86_64_tables.cpp and the
-- rows that an opcode, its ModRM byte and its prefixes select.
mod General
mod SimdRows
mod Prefixed
mod ThreeByte
mod ThreeDNow
use voidwalk.Common.{
  ℕ, ◌+◌, ◌-◌, ◌*◌, ◌/◌, ◌%◌, ℤ, pos, negsuc, Bool, true, false, not, ◌&&◌, ◌||◌, String, List, [],
  ◌∷◌, ◌++◌, map, if◌then◌else◌, ◌==◌, ltb, leb, is_empty,
}
use voidwalk.X86.Types.{
  Addressing, Size, TableOperand, op, no_operand, OpcodeInfo, empty_info, not_group, is_positive,
  Write, row_at, Simd,
}
use voidwalk.X86.Operands.{op_none, op_e_v, op_e_b, op_g_y, op_i_b}
use voidwalk.X86.Rows.{row, assign, group_t, group_m}
use voidwalk.X86.Merge.{merge}
use General.{two_byte_general}
use SimdRows.{two_byte_simd}
use Prefixed.{prefixed_66, prefixed_f3, prefixed_f2}
use ThreeByte.{three_byte_rows}
use ThreeDNow.{three_d_now_rows}

-- The last loop of buildTwoByteOpcodes
unfoldable name_bad : OpcodeInfo → OpcodeInfo
name_bad info =
    if is_empty info.text then record info { text = "(bad)"; has_rm_byte = true } else info

unfoldable pub two_byte_table : ℕ → OpcodeInfo
unfolding two_byte_general two_byte_simd row_at name_bad
two_byte_table opcode =
    name_bad (row_at two_byte_simd (row_at two_byte_general empty_info opcode) opcode)

unfoldable pub prefixed_table : ℕ → OpcodeInfo
unfolding prefixed_66 prefixed_f3 prefixed_f2 row_at
prefixed_table index =
    row_at prefixed_f2 (row_at prefixed_f3 (row_at prefixed_66 empty_info index) index) index

unfoldable pub three_byte_table : ℕ → OpcodeInfo
unfolding three_byte_rows row_at
three_byte_table index = row_at three_byte_rows empty_info index

unfoldable pub three_d_now_table : ℕ → OpcodeInfo
unfolding three_d_now_rows row_at
three_d_now_table index = row_at three_d_now_rows empty_info index

-- buildTwoByteGroups
unfoldable pub two_byte_groups : List Write
two_byte_groups =
    (group_t 8 4 "BT" ∷ group_t 8 5 "BTS" ∷ group_t 8 6 "BTR" ∷ group_t 8 7 "BTC" ∷ [])
    ++ (group_t 12 2 "PSRLW" ∷ group_t 12 4 "PSRAW" ∷ group_t 12 6 "PSLLW" ∷ [])
    ++ (group_t 13 2 "PSRLD" ∷ group_t 13 4 "PSRAD" ∷ group_t 13 6 "PSLLD" ∷ [])
    ++ (group_t 14 2 "PSRLQ"
        ∷ group_t 14 3 "PSRLDQ"
        ∷ group_t 14 6 "PSLLQ"
        ∷ group_t 14 7 "PSLLDQ"
        ∷ [])
    ++ (group_m 15 0 "FXSAVE"
        ∷ group_m 15 1 "FXRSTOR"
        ∷ group_m 15 2 "LDMXCSR"
        ∷ group_m 15 3 "STMXCSR"
        ∷ group_m 15 4 "XSAVE"
        ∷ group_m 15 5 "XRSTOR"
        ∷ group_m 15 6 "XSAVEOPT"
        ∷ group_m 15 7 "CLFLUSH"
        ∷ [])
    ++ (group_t 17 5 "LFENCE" ∷ group_t 17 6 "MFENCE" ∷ group_t 17 7 "SFENCE" ∷ [])
    ++ (group_m 16 0 "PREFETCHNTA"
        ∷ group_m 16 1 "PREFETCHT0"
        ∷ group_m 16 2 "PREFETCHT1"
        ∷ group_m 16 3 "PREFETCHT2"
        ∷ [])
    ++ map (λ r. assign ((16 - 8) * 8 + r) (row "NOP" "" true op_e_v op_none op_none (pos 16)))
        (4 ∷ 5 ∷ 6 ∷ 7 ∷ [])
    ++ map (λ r. group_m 18 r (if r == 1 then "PREFETCHW" else "PREFETCH"))
        (0 ∷ 1 ∷ 2 ∷ 3 ∷ 4 ∷ 5 ∷ 6 ∷ 7 ∷ [])
    ++ (group_t 19 2 "VPSRLW" ∷ group_t 19 4 "VPSRAW" ∷ group_t 19 6 "VPSLLW" ∷ [])
    ++ (group_t 20 2 "VPSRLD" ∷ group_t 20 4 "VPSRAD" ∷ group_t 20 6 "VPSLLD" ∷ [])
    ++ (group_t 21 2 "VPSRLQ"
        ∷ group_t 21 3 "VPSRLDQ"
        ∷ group_t 21 6 "VPSLLQ"
        ∷ group_t 21 7 "VPSLLDQ"
        ∷ [])
    ++ (group_m 22 2 "VLDMXCSR" ∷ group_m 22 3 "VSTMXCSR" ∷ [])
    ++ (group_t 23 1 "BLSR" ∷ group_t 23 2 "BLSMSK" ∷ group_t 23 3 "BLSI" ∷ [])

unfoldable pub two_byte_group_table : ℕ → OpcodeInfo
unfolding two_byte_groups row_at
two_byte_group_table index = row_at two_byte_groups empty_info index

unfoldable pub three_byte_row : Bool → OpcodeInfo
three_byte_row has_imm8 =
    row "(bad)" "" true (if has_imm8 then op_i_b else no_operand) no_operand no_operand not_group

-- `groupNumber` where it is positive
unfoldable pub group_index : ℤ → ℕ
group_index (pos n) = n
group_index (negsuc n) = 0

-- The row of the group that an outer row names, or the outer row.
unfoldable pub in_group : OpcodeInfo → ℕ → ℕ → OpcodeInfo
unfolding two_byte_group_table merge
in_group outer group mod_rm = merge outer (two_byte_group_table ((group - 8) * 8 + mod_rm / 8 % 8))

-- `row` with no operands and a mandatory prefix
abbrev bare : String → ℕ → OpcodeInfo
bare text prefix =
    let info = row text "" true no_operand no_operand no_operand not_group in
    record info { mandatory_prefix = prefix }

unfoldable is_mmx : Addressing → Bool
is_mmx Addressing.p = true
is_mmx Addressing.q = true
is_mmx _ = false

unfoldable to_xmm : TableOperand → TableOperand
to_xmm operand = record operand { addressing_mode = widen operand.addressing_mode }
  where
    widen : Addressing → Addressing
    widen Addressing.p = Addressing.v
    widen Addressing.q = Addressing.w
    widen mode = mode

-- The SSE2 twin of an MMX row
unfoldable sse2_twin : OpcodeInfo → OpcodeInfo
unfolding is_mmx to_xmm
sse2_twin info =
    let any_mmx =
      is_mmx info.operand0.addressing_mode
      || is_mmx info.operand1.addressing_mode
      || is_mmx info.operand2.addressing_mode in
    record info {
      operand0 = to_xmm info.operand0;
      operand1 = to_xmm info.operand1;
      operand2 = to_xmm info.operand2;
      mandatory_prefix = if any_mmx then 0x66 else info.mandatory_prefix;
    }

unfoldable two_byte_outer : ℕ → ℕ → ℕ → OpcodeInfo
unfolding prefixed_table two_byte_table sse2_twin
two_byte_outer opcode mod_rm pp =
    let prefixed = prefixed_table ((pp - 1) * 256 + opcode) in
    let taken =
      if ltb 0 pp && not (is_empty prefixed.text) then prefixed else two_byte_table opcode in
    let twin = if (pp == 1) && (taken.mandatory_prefix == 0) then sse2_twin taken else taken in
    if (twin.mandatory_prefix == 0) && leb 0xc0 mod_rm && (opcode == 0x12)
    then record twin { text = "MOVHLPS" }
    else if (twin.mandatory_prefix == 0) && leb 0xc0 mod_rm && (opcode == 0x16)
    then record twin { text = "MOVLHPS" }
    else twin

unfoldable pub two_byte_resolved_info : ℕ → ℕ → Simd → OpcodeInfo
unfolding two_byte_outer in_group group_index
two_byte_resolved_info opcode mod_rm simd =
    let outer = two_byte_outer opcode mod_rm simd.pp in
    let number = group_index outer.group_number in
    if (opcode == 0x1e) && (simd.pp == 2) && (mod_rm == 0xfa)
    then bare "ENDBR64" 0xf3
    else if (opcode == 0x1e) && (simd.pp == 2) && (mod_rm == 0xfb)
    then bare "ENDBR32" 0xf3
    else if (opcode == 0x01) && (mod_rm == 0xc8)
    then bare "MONITOR" 0
    else if (opcode == 0x01) && (mod_rm == 0xc9)
    then bare "MWAIT" 0
    else if not (is_positive outer.group_number)
    then outer
    else in_group outer (if (number == 15) && leb 0xc0 mod_rm then 17 else number) mod_rm

unfoldable crc32 : TableOperand → OpcodeInfo
crc32 source =
    let info = row "CRC32" "" true op_g_y source no_operand not_group in
    record info { mandatory_prefix = 0xf2 }

unfoldable pub three_byte_resolved_info : ℕ → Simd → OpcodeInfo
unfolding crc32 three_byte_row three_byte_table
three_byte_resolved_info opcode simd =
    let row = three_byte_table (((simd.map - 2) * 2 + simd.pp) * 256 + opcode) in
    if (simd.map == 2) && (simd.pp == 3) && (opcode == 0xf0)
    then crc32 op_e_b
    else if (simd.map == 2) && (simd.pp == 3) && (opcode == 0xf1)
    then crc32 op_e_v
    else if ltb 1 simd.pp
    then three_byte_row (simd.map == 3)
    else if is_empty row.text
    then three_byte_row (simd.map == 3)
    else row
