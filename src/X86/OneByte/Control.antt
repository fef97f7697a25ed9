-- ===== src/X86/OneByte/Control.antt =====
-- The one-byte opcode map of src/arch/x86_64/x86_64_tables.cpp: from 0xc0 on.
use voidwalk.Common.{[], ◌∷◌, List, true, false}
use voidwalk.X86.Types.{Addressing, Size, Write, op}
use voidwalk.X86.Operands.{
  op_a_p, op_e_b, op_e_v, op_eax_z, op_g_v, op_i_b, op_i_w, op_i_z, op_j_b, op_j_v, op_m_p, op_none,
}
use voidwalk.X86.Rows.{p, p16, pg}
use voidwalk.X86.Opcode.{
  aad_ib, aam_ib, call_jv, clc, cld, cli, cmc, enter_iw_ib, esc0, esc1, esc2, esc3, esc4, esc5,
  esc6, esc7, grp2_eb1, grp2_eb_cl, grp2_eb_ib, grp2_ev1, grp2_ev_cl, grp2_ev_ib, grp3_eb, grp3_ev,
  grp4, grp5, hlt, in_al_dx, in_al_ib, in_eax_dx, in_eax_ib, int1, int3, int_ib, into, iret,
  jecxz_jb, jmp_ap, jmp_jb, jmp_jv, lds_gv_mp, leave, les_gv_mp, lock, loop_jb, loopnz_jb, loopz_jb,
  mov_eb_ib, mov_ev_iv, out_dx_al, out_dx_eax, out_ib_al, out_ib_eax, rep, repne, ret, ret_iw, retf,
  retf_iw, salc, stc, std, sti, xlat,
}

-- Shifts, returns, calls, I/O and the other groups.
unfoldable pub opcodes_control : List Write
opcodes_control =
    pg grp2_eb_ib "GRP2" true op_e_b op_i_b op_none 2
    ∷ pg grp2_ev_ib "GRP2" true op_e_v op_i_b op_none 2
    ∷ p ret_iw "RET" false op_i_w op_none op_none
    ∷ p ret "RET" false op_none op_none op_none
    ∷ p les_gv_mp "LES" true op_g_v op_m_p op_none
    ∷ p lds_gv_mp "LDS" true op_g_v op_m_p op_none
    ∷ p mov_eb_ib "MOV" true op_e_b op_i_b op_none
    ∷ p mov_ev_iv "MOV" true op_e_v op_i_z op_none
    ∷ p enter_iw_ib "ENTER" false op_i_w op_i_b op_none
    ∷ p leave "LEAVE" false op_none op_none op_none
    ∷ p retf_iw "RETF" false op_i_w op_none op_none
    ∷ p retf "RETF" false op_none op_none op_none
    ∷ p int3 "INT3" false op_none op_none op_none
    ∷ p int_ib "INT" false op_i_b op_none op_none
    ∷ p into "INTO" false op_none op_none op_none
    ∷ p16 iret "IRETD" "IRET" false op_none op_none op_none
    ∷ pg grp2_eb1 "GRP2" true op_e_b (op Addressing.one Size.none "1") op_none 2
    ∷ pg grp2_ev1 "GRP2" true op_e_v (op Addressing.one Size.none "1") op_none 2
    ∷ pg grp2_eb_cl "GRP2" true op_e_b (op Addressing.cl Size.none "CL") op_none 2
    ∷ pg grp2_ev_cl "GRP2" true op_e_v (op Addressing.cl Size.none "CL") op_none 2
    ∷ p aam_ib "AAM" false op_i_b op_none op_none
    ∷ p aad_ib "AAD" false op_i_b op_none op_none
    ∷ p salc "SALC" false op_none op_none op_none
    ∷ p xlat "XLAT" false op_none op_none op_none
    ∷ p esc0 "ESC" true op_none op_none op_none
    ∷ p esc1 "ESC" true op_none op_none op_none
    ∷ p esc2 "ESC" true op_none op_none op_none
    ∷ p esc3 "ESC" true op_none op_none op_none
    ∷ p esc4 "ESC" true op_none op_none op_none
    ∷ p esc5 "ESC" true op_none op_none op_none
    ∷ p esc6 "ESC" true op_none op_none op_none
    ∷ p esc7 "ESC" true op_none op_none op_none
    ∷ p loopnz_jb "LOOPNZ" false op_j_b op_none op_none
    ∷ p loopz_jb "LOOPZ" false op_j_b op_none op_none
    ∷ p loop_jb "LOOP" false op_j_b op_none op_none
    ∷ p jecxz_jb "JECXZ" false op_j_b op_none op_none
    ∷ p in_al_ib "IN" false (op Addressing.al Size.b "AL") op_i_b op_none
    ∷ p in_eax_ib "IN" false op_eax_z op_i_b op_none
    ∷ p out_ib_al "OUT" false op_i_b (op Addressing.al Size.b "AL") op_none
    ∷ p out_ib_eax "OUT" false op_i_b op_eax_z op_none
    ∷ p call_jv "CALL" false op_j_v op_none op_none
    ∷ p jmp_jv "JMP" false op_j_v op_none op_none
    ∷ p jmp_ap "JMP" false op_a_p op_none op_none
    ∷ p jmp_jb "JMP" false op_j_b op_none op_none
    ∷ p in_al_dx "IN" false (op Addressing.al Size.b "AL") (op Addressing.dx Size.none "DX") op_none
    ∷ p in_eax_dx "IN" false op_eax_z (op Addressing.dx Size.none "DX") op_none
    ∷ p out_dx_al "OUT" false (op Addressing.dx Size.none "DX") (op Addressing.al Size.b "AL")
        op_none
    ∷ p out_dx_eax "OUT" false (op Addressing.dx Size.none "DX") op_eax_z op_none
    ∷ p lock "LOCK" false op_none op_none op_none
    ∷ p int1 "INT1" false op_none op_none op_none
    ∷ p repne "REPNE" false op_none op_none op_none
    ∷ p rep "REP" false op_none op_none op_none
    ∷ p hlt "HLT" false op_none op_none op_none
    ∷ p cmc "CMC" false op_none op_none op_none
    ∷ pg grp3_eb "GRP3" true op_e_b op_none op_none 3
    ∷ pg grp3_ev "GRP3" true op_e_v op_none op_none 3
    ∷ p clc "CLC" false op_none op_none op_none
    ∷ p stc "STC" false op_none op_none op_none
    ∷ p cli "CLI" false op_none op_none op_none
    ∷ p sti "STI" false op_none op_none op_none
    ∷ p cld "CLD" false op_none op_none op_none
    ∷ p std "STD" false op_none op_none op_none
    ∷ pg grp4 "GRP4" true op_none op_none op_none 4
    ∷ pg grp5 "GRP5" true op_none op_none op_none 5
    ∷ []
