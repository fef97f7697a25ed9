-- ===== src/X86/OneByte/Moves.antt =====
-- The one-byte opcode map of src/arch/x86_64/x86_64_tables.cpp: 80 to BF.
use voidwalk.Common.{[], ◌∷◌, List, true, false}
use voidwalk.X86.Types.{Addressing, Size, Write, op}
use voidwalk.X86.Operands.{
  op_a_p, op_e_b, op_e_v, op_e_w, op_eax_v, op_f_v, op_g_b, op_g_v, op_i_b, op_i_bs, op_i_v, op_i_z,
  op_m, op_none, op_o_b, op_o_v, op_s_w, op_x_b, op_x_v, op_y_b, op_y_v, op_z_v,
}
use voidwalk.X86.Rows.{p, p16, pg}
use voidwalk.X86.Opcode.{
  call_ap, cbw, cmpsb_xb_yb, cmpsw_xv_yv, cwd, fwait, grp1_eb_ib, grp1_eb_ib2, grp1_ev_ib,
  grp1_ev_iz, lahf, lea_gv_m, lodsb_al_xb, lodsw_eax_xv, mov_ah_ib, mov_al_ib, mov_al_ob, mov_bh_ib,
  mov_bl_ib, mov_ch_ib, mov_cl_ib, mov_dh_ib, mov_dl_ib, mov_eax_iv, mov_eax_ov, mov_eb_gb,
  mov_ebp_iv, mov_ebx_iv, mov_ecx_iv, mov_edi_iv, mov_edx_iv, mov_esi_iv, mov_esp_iv, mov_ev_gv,
  mov_ew_sw, mov_gb_eb, mov_gv_ev, mov_ob_al, mov_ov_eax, mov_sw_ew, movsb_xb_yb, movsw_xv_yv, nop,
  pop_ev, popf_fv, pushf_fv, sahf, scasb_al_yb, scasw_eax_yv, stosb_yb_al, stosw_yv_eax, test_al_ib,
  test_eax_iv, test_eb_gb, test_ev_gv, xchg_eax_ebp, xchg_eax_ebx, xchg_eax_ecx, xchg_eax_edi,
  xchg_eax_edx, xchg_eax_esi, xchg_eax_esp, xchg_eb_gb, xchg_ev_gv,
}

-- Group 1, the moves and the string operations.
unfoldable pub opcodes_moves : List Write
opcodes_moves =
    pg grp1_eb_ib "GRP1" true op_e_b op_i_b op_none 1
    ∷ pg grp1_ev_iz "GRP1" true op_e_v op_i_z op_none 1
    ∷ pg grp1_eb_ib2 "GRP1" true op_e_b op_i_b op_none 1
    ∷ pg grp1_ev_ib "GRP1" true op_e_v op_i_bs op_none 1
    ∷ p test_eb_gb "TEST" true op_e_b op_g_b op_none
    ∷ p test_ev_gv "TEST" true op_e_v op_g_v op_none
    ∷ p xchg_eb_gb "XCHG" true op_e_b op_g_b op_none
    ∷ p xchg_ev_gv "XCHG" true op_e_v op_g_v op_none
    ∷ p mov_eb_gb "MOV" true op_e_b op_g_b op_none
    ∷ p mov_ev_gv "MOV" true op_e_v op_g_v op_none
    ∷ p mov_gb_eb "MOV" true op_g_b op_e_b op_none
    ∷ p mov_gv_ev "MOV" true op_g_v op_e_v op_none
    ∷ p mov_ew_sw "MOV" true op_e_w op_s_w op_none
    ∷ p lea_gv_m "LEA" true op_g_v op_m op_none
    ∷ p mov_sw_ew "MOV" true op_s_w op_e_w op_none
    ∷ p pop_ev "POP" true op_e_v op_none op_none
    ∷ p nop "NOP" false op_none op_none op_none
    ∷ p xchg_eax_ecx "XCHG" false op_eax_v op_z_v op_none
    ∷ p xchg_eax_edx "XCHG" false op_eax_v op_z_v op_none
    ∷ p xchg_eax_ebx "XCHG" false op_eax_v op_z_v op_none
    ∷ p xchg_eax_esp "XCHG" false op_eax_v op_z_v op_none
    ∷ p xchg_eax_ebp "XCHG" false op_eax_v op_z_v op_none
    ∷ p xchg_eax_esi "XCHG" false op_eax_v op_z_v op_none
    ∷ p xchg_eax_edi "XCHG" false op_eax_v op_z_v op_none
    ∷ p16 cbw "CWDE" "CBW" false op_none op_none op_none
    ∷ p16 cwd "CDQ" "CWD" false op_none op_none op_none
    ∷ p call_ap "CALL" false op_a_p op_none op_none
    ∷ p fwait "FWAIT" false op_none op_none op_none
    ∷ p16 pushf_fv "PUSHFD" "PUSHF" false op_f_v op_none op_none
    ∷ p16 popf_fv "POPFD" "POPF" false op_f_v op_none op_none
    ∷ p sahf "SAHF" false op_none op_none op_none
    ∷ p lahf "LAHF" false op_none op_none op_none
    ∷ p mov_al_ob "MOV" false (op Addressing.al Size.b "AL") op_o_b op_none
    ∷ p mov_eax_ov "MOV" false op_eax_v op_o_v op_none
    ∷ p mov_ob_al "MOV" false op_o_b (op Addressing.al Size.b "AL") op_none
    ∷ p mov_ov_eax "MOV" false op_o_v op_eax_v op_none
    ∷ p movsb_xb_yb "MOVSB" false op_y_b op_x_b op_none
    ∷ p16 movsw_xv_yv "MOVSD" "MOVSW" false op_y_v op_x_v op_none
    ∷ p cmpsb_xb_yb "CMPSB" false op_x_b op_y_b op_none
    ∷ p16 cmpsw_xv_yv "CMPSD" "CMPSW" false op_x_v op_y_v op_none
    ∷ p test_al_ib "TEST" false (op Addressing.al Size.b "AL") op_i_b op_none
    ∷ p test_eax_iv "TEST" false op_eax_v op_i_z op_none
    ∷ p stosb_yb_al "STOSB" false op_y_b (op Addressing.al Size.b "AL") op_none
    ∷ p16 stosw_yv_eax "STOSD" "STOSW" false op_y_v op_eax_v op_none
    ∷ p lodsb_al_xb "LODSB" false (op Addressing.al Size.b "AL") op_x_b op_none
    ∷ p16 lodsw_eax_xv "LODSD" "LODSW" false op_eax_v op_x_v op_none
    ∷ p scasb_al_yb "SCASB" false (op Addressing.al Size.b "AL") op_y_b op_none
    ∷ p16 scasw_eax_yv "SCASD" "SCASW" false op_eax_v op_y_v op_none
    ∷ p mov_al_ib "MOV" false (op Addressing.al Size.b "AL") op_i_b op_none
    ∷ p mov_cl_ib "MOV" false (op Addressing.cl Size.b "CL") op_i_b op_none
    ∷ p mov_dl_ib "MOV" false (op Addressing.dl Size.b "DL") op_i_b op_none
    ∷ p mov_bl_ib "MOV" false (op Addressing.bl Size.b "BL") op_i_b op_none
    ∷ p mov_ah_ib "MOV" false (op Addressing.ah Size.b "AH") op_i_b op_none
    ∷ p mov_ch_ib "MOV" false (op Addressing.ch Size.b "CH") op_i_b op_none
    ∷ p mov_dh_ib "MOV" false (op Addressing.dh Size.b "DH") op_i_b op_none
    ∷ p mov_bh_ib "MOV" false (op Addressing.bh Size.b "BH") op_i_b op_none
    ∷ p mov_eax_iv "MOV" false op_z_v op_i_v op_none
    ∷ p mov_ecx_iv "MOV" false op_z_v op_i_v op_none
    ∷ p mov_edx_iv "MOV" false op_z_v op_i_v op_none
    ∷ p mov_ebx_iv "MOV" false op_z_v op_i_v op_none
    ∷ p mov_esp_iv "MOV" false op_z_v op_i_v op_none
    ∷ p mov_ebp_iv "MOV" false op_z_v op_i_v op_none
    ∷ p mov_esi_iv "MOV" false op_z_v op_i_v op_none
    ∷ p mov_edi_iv "MOV" false op_z_v op_i_v op_none
    ∷ []
