-- ===== src/X86/Operands.antt =====
-- The operand slots that the tables of src/arch/x86_64/x86_64_tables.cpp name: an addressing mode
-- and a size, with no text of their own.
use voidwalk.X86.Types.{TableOperand, Addressing, Size, op}

abbrev pub op_a_p : TableOperand
op_a_p = op Addressing.a Size.p ""

abbrev pub op_e : TableOperand
op_e = op Addressing.e Size.none ""

abbrev pub op_e_b : TableOperand
op_e_b = op Addressing.e Size.b ""

abbrev pub op_e_d : TableOperand
op_e_d = op Addressing.e Size.d ""

abbrev pub op_e_v : TableOperand
op_e_v = op Addressing.e Size.v ""

abbrev pub op_e_w : TableOperand
op_e_w = op Addressing.e Size.w ""

abbrev pub op_e_y : TableOperand
op_e_y = op Addressing.e Size.y ""

abbrev pub op_f_v : TableOperand
op_f_v = op Addressing.f Size.v ""

abbrev pub op_g_b : TableOperand
op_g_b = op Addressing.g Size.b ""

abbrev pub op_g_d : TableOperand
op_g_d = op Addressing.g Size.d ""

abbrev pub op_g_v : TableOperand
op_g_v = op Addressing.g Size.v ""

abbrev pub op_g_w : TableOperand
op_g_w = op Addressing.g Size.w ""

abbrev pub op_g_y : TableOperand
op_g_y = op Addressing.g Size.y ""

abbrev pub op_h : TableOperand
op_h = op Addressing.h Size.none ""

abbrev pub op_h_dq : TableOperand
op_h_dq = op Addressing.h Size.dq ""

abbrev pub op_h_y : TableOperand
op_h_y = op Addressing.h Size.y ""

abbrev pub op_i : TableOperand
op_i = op Addressing.i Size.none ""

abbrev pub op_i_b : TableOperand
op_i_b = op Addressing.i Size.b ""

abbrev pub op_i_bs : TableOperand
op_i_bs = op Addressing.i Size.bs ""

abbrev pub op_i_v : TableOperand
op_i_v = op Addressing.i Size.v ""

abbrev pub op_i_w : TableOperand
op_i_w = op Addressing.i Size.w ""

abbrev pub op_i_z : TableOperand
op_i_z = op Addressing.i Size.z ""

abbrev pub op_j_b : TableOperand
op_j_b = op Addressing.j Size.b ""

abbrev pub op_j_v : TableOperand
op_j_v = op Addressing.j Size.v ""

abbrev pub op_j_z : TableOperand
op_j_z = op Addressing.j Size.z ""

abbrev pub op_l_b : TableOperand
op_l_b = op Addressing.l Size.b ""

abbrev pub op_m : TableOperand
op_m = op Addressing.m Size.none ""

abbrev pub op_m_a : TableOperand
op_m_a = op Addressing.m Size.a ""

abbrev pub op_m_p : TableOperand
op_m_p = op Addressing.m Size.p ""

abbrev pub op_none : TableOperand
op_none = op Addressing.none Size.none ""

abbrev pub op_o_b : TableOperand
op_o_b = op Addressing.o Size.b ""

abbrev pub op_o_v : TableOperand
op_o_v = op Addressing.o Size.v ""

abbrev pub op_p : TableOperand
op_p = op Addressing.p Size.none ""

abbrev pub op_q : TableOperand
op_q = op Addressing.q Size.none ""

abbrev pub op_s_w : TableOperand
op_s_w = op Addressing.s Size.w ""

abbrev pub op_v : TableOperand
op_v = op Addressing.v Size.none ""

abbrev pub op_v_dq : TableOperand
op_v_dq = op Addressing.v Size.dq ""

abbrev pub op_vsib : TableOperand
op_vsib = op Addressing.vsib Size.none ""

abbrev pub op_w : TableOperand
op_w = op Addressing.w Size.none ""

abbrev pub op_w_dq : TableOperand
op_w_dq = op Addressing.w Size.dq ""

abbrev pub op_x_b : TableOperand
op_x_b = op Addressing.x Size.b ""

abbrev pub op_x_v : TableOperand
op_x_v = op Addressing.x Size.v ""

abbrev pub op_y_b : TableOperand
op_y_b = op Addressing.y Size.b ""

abbrev pub op_y_v : TableOperand
op_y_v = op Addressing.y Size.v ""

abbrev pub op_y_z : TableOperand
op_y_z = op Addressing.y Size.z ""

abbrev pub op_z_v : TableOperand
op_z_v = op Addressing.z Size.v ""

abbrev pub op_eax_v : TableOperand
op_eax_v = op Addressing.eax Size.v ""

abbrev pub op_eax_z : TableOperand
op_eax_z = op Addressing.eax Size.z ""

abbrev pub op_ebp_v : TableOperand
op_ebp_v = op Addressing.ebp Size.v ""

abbrev pub op_ebx_v : TableOperand
op_ebx_v = op Addressing.ebx Size.v ""

abbrev pub op_ecx_v : TableOperand
op_ecx_v = op Addressing.ecx Size.v ""

abbrev pub op_edi_v : TableOperand
op_edi_v = op Addressing.edi Size.v ""

abbrev pub op_edx_v : TableOperand
op_edx_v = op Addressing.edx Size.v ""

abbrev pub op_esi_v : TableOperand
op_esi_v = op Addressing.esi Size.v ""

abbrev pub op_esp_v : TableOperand
op_esp_v = op Addressing.esp Size.v ""
