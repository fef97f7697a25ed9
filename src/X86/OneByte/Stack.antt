-- ===== src/X86/OneByte/Stack.antt =====
-- The one-byte opcode map of src/arch/x86_64/x86_64_tables.cpp: 40 to 7F.
use voidwalk.Common.{[], ◌∷◌, List, true, false}
use voidwalk.X86.Types.{Addressing, Size, Write, op}
use voidwalk.X86.Operands.{
  op_e_v, op_e_w, op_eax_v, op_ebp_v, op_ebx_v, op_ecx_v, op_edi_v, op_edx_v, op_esi_v, op_esp_v,
  op_g_v, op_g_w, op_i_bs, op_i_z, op_j_b, op_m_a, op_none, op_x_b, op_x_v, op_y_b, op_y_z, op_z_v,
}
use voidwalk.X86.Rows.{p, p16}
use voidwalk.X86.Opcode.{
  adsize, arpl_ew_gw, bound_gv_ma, dec_eax, dec_ebp, dec_ebx, dec_ecx, dec_edi, dec_edx, dec_esi,
  dec_esp, fs, gs, imul_gv_ev_ib, imul_gv_ev_iv, inc_eax, inc_ebp, inc_ebx, inc_ecx, inc_edi,
  inc_edx, inc_esi, inc_esp, insb_yb_dx, insw_yz_dx, ja, jb, jbe, jl, jle, jnb, jnl, jnle, jno, jnp,
  jns, jnz, jo, jp, js, jz, opsize, outsb_dx_xb, outsw_dx_xv, pop_eax, pop_ebp, pop_ebx, pop_ecx,
  pop_edi, pop_edx, pop_esi, pop_esp, popa, push_eax, push_ebp, push_ebx, push_ecx, push_edi,
  push_edx, push_esi, push_esp, push_ib, push_iv, pusha,
}

-- INC and DEC, the stack, and the short conditional jumps.
unfoldable pub opcodes_stack : List Write
opcodes_stack =
    p inc_eax "INC" false op_eax_v op_none op_none
    ∷ p inc_ecx "INC" false op_ecx_v op_none op_none
    ∷ p inc_edx "INC" false op_edx_v op_none op_none
    ∷ p inc_ebx "INC" false op_ebx_v op_none op_none
    ∷ p inc_esp "INC" false op_esp_v op_none op_none
    ∷ p inc_ebp "INC" false op_ebp_v op_none op_none
    ∷ p inc_esi "INC" false op_esi_v op_none op_none
    ∷ p inc_edi "INC" false op_edi_v op_none op_none
    ∷ p dec_eax "DEC" false op_eax_v op_none op_none
    ∷ p dec_ecx "DEC" false op_ecx_v op_none op_none
    ∷ p dec_edx "DEC" false op_edx_v op_none op_none
    ∷ p dec_ebx "DEC" false op_ebx_v op_none op_none
    ∷ p dec_esp "DEC" false op_esp_v op_none op_none
    ∷ p dec_ebp "DEC" false op_ebp_v op_none op_none
    ∷ p dec_esi "DEC" false op_esi_v op_none op_none
    ∷ p dec_edi "DEC" false op_edi_v op_none op_none
    ∷ p push_eax "PUSH" false op_z_v op_none op_none
    ∷ p push_ecx "PUSH" false op_z_v op_none op_none
    ∷ p push_edx "PUSH" false op_z_v op_none op_none
    ∷ p push_ebx "PUSH" false op_z_v op_none op_none
    ∷ p push_esp "PUSH" false op_z_v op_none op_none
    ∷ p push_ebp "PUSH" false op_z_v op_none op_none
    ∷ p push_esi "PUSH" false op_z_v op_none op_none
    ∷ p push_edi "PUSH" false op_z_v op_none op_none
    ∷ p pop_eax "POP" false op_z_v op_none op_none
    ∷ p pop_ecx "POP" false op_z_v op_none op_none
    ∷ p pop_edx "POP" false op_z_v op_none op_none
    ∷ p pop_ebx "POP" false op_z_v op_none op_none
    ∷ p pop_esp "POP" false op_z_v op_none op_none
    ∷ p pop_ebp "POP" false op_z_v op_none op_none
    ∷ p pop_esi "POP" false op_z_v op_none op_none
    ∷ p pop_edi "POP" false op_z_v op_none op_none
    ∷ p16 pusha "PUSHAD" "PUSHA" false op_none op_none op_none
    ∷ p16 popa "POPAD" "POPA" false op_none op_none op_none
    ∷ p bound_gv_ma "BOUND" true op_g_v op_m_a op_none
    ∷ p arpl_ew_gw "ARPL" true op_e_w op_g_w op_none
    ∷ p fs "FS" false op_none op_none op_none
    ∷ p gs "GS" false op_none op_none op_none
    ∷ p opsize "OPSIZE" false op_none op_none op_none
    ∷ p adsize "ADSIZE" false op_none op_none op_none
    ∷ p push_iv "PUSH" false op_i_z op_none op_none
    ∷ p imul_gv_ev_iv "IMUL" true op_g_v op_e_v op_i_z
    ∷ p push_ib "PUSH" false op_i_bs op_none op_none
    ∷ p imul_gv_ev_ib "IMUL" true op_g_v op_e_v op_i_bs
    ∷ p insb_yb_dx "INSB" false op_y_b (op Addressing.dx Size.none "DX") op_none
    ∷ p16 insw_yz_dx "INSD" "INSW" false op_y_z (op Addressing.dx Size.none "DX") op_none
    ∷ p outsb_dx_xb "OUTSB" false (op Addressing.dx Size.none "DX") op_x_b op_none
    ∷ p16 outsw_dx_xv "OUTSD" "OUTSW" false (op Addressing.dx Size.none "DX") op_x_v op_none
    ∷ p jo "JO" false op_j_b op_none op_none
    ∷ p jno "JNO" false op_j_b op_none op_none
    ∷ p jb "JB" false op_j_b op_none op_none
    ∷ p jnb "JNB" false op_j_b op_none op_none
    ∷ p jz "JZ" false op_j_b op_none op_none
    ∷ p jnz "JNZ" false op_j_b op_none op_none
    ∷ p jbe "JBE" false op_j_b op_none op_none
    ∷ p ja "JA" false op_j_b op_none op_none
    ∷ p js "JS" false op_j_b op_none op_none
    ∷ p jns "JNS" false op_j_b op_none op_none
    ∷ p jp "JP" false op_j_b op_none op_none
    ∷ p jnp "JNP" false op_j_b op_none op_none
    ∷ p jl "JL" false op_j_b op_none op_none
    ∷ p jnl "JNL" false op_j_b op_none op_none
    ∷ p jle "JLE" false op_j_b op_none op_none
    ∷ p jnle "JNLE" false op_j_b op_none op_none
    ∷ []
