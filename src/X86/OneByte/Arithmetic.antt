-- ===== src/X86/OneByte/Arithmetic.antt =====
-- The one-byte opcode map of src/arch/x86_64/x86_64_tables.cpp: 00 to 3F.
use voidwalk.Common.{[], ◌∷◌, List, true, false}
use voidwalk.X86.Types.{Addressing, Size, Write, op}
use voidwalk.X86.Operands.{op_e_b, op_e_v, op_eax_v, op_g_b, op_g_v, op_i_b, op_i_z, op_none}
use voidwalk.X86.Rows.{p}
use voidwalk.X86.Opcode.{
  aaa, aas, adc_al_ib, adc_eax_iv, adc_eb_gb, adc_ev_gv, adc_gb_eb, adc_gv_ev, add_al_ib,
  add_eax_iv, add_eb_gb, add_ev_gv, add_gb_eb, add_gv_ev, and_al_ib, and_eax_iv, and_eb_gb,
  and_ev_gv, and_gb_eb, and_gv_ev, cmp_al_ib, cmp_eax_iv, cmp_eb_gb, cmp_ev_gv, cmp_gb_eb,
  cmp_gv_ev, cs, daa, das, ds, es, or_al_ib, or_eax_iv, or_eb_gb, or_ev_gv, or_gb_eb, or_gv_ev,
  pop_ds, pop_es, pop_ss, push_cs, push_ds, push_es, push_ss, sbb_al_ib, sbb_eax_iv, sbb_eb_gb,
  sbb_ev_gv, sbb_gb_eb, sbb_gv_ev, ss, sub_al_ib, sub_eax_iv, sub_eb_gb, sub_ev_gv, sub_gb_eb,
  sub_gv_ev, twobyte, xor_al_ib, xor_eax_iv, xor_eb_gb, xor_ev_gv, xor_gb_eb, xor_gv_ev,
}

-- The accumulator, register and memory forms of the eight operations.
unfoldable pub opcodes_arithmetic : List Write
opcodes_arithmetic =
    p add_eb_gb "ADD" true op_e_b op_g_b op_none
    ∷ p add_ev_gv "ADD" true op_e_v op_g_v op_none
    ∷ p add_gb_eb "ADD" true op_g_b op_e_b op_none
    ∷ p add_gv_ev "ADD" true op_g_v op_e_v op_none
    ∷ p add_al_ib "ADD" false (op Addressing.al Size.b "AL") op_i_b op_none
    ∷ p add_eax_iv "ADD" false op_eax_v op_i_z op_none
    ∷ p push_es "PUSH" false (op Addressing.es Size.none "ES") op_none op_none
    ∷ p pop_es "POP" false (op Addressing.es Size.none "ES") op_none op_none
    ∷ p or_eb_gb "OR" true op_e_b op_g_b op_none
    ∷ p or_ev_gv "OR" true op_e_v op_g_v op_none
    ∷ p or_gb_eb "OR" true op_g_b op_e_b op_none
    ∷ p or_gv_ev "OR" true op_g_v op_e_v op_none
    ∷ p or_al_ib "OR" false (op Addressing.al Size.b "AL") op_i_b op_none
    ∷ p or_eax_iv "OR" false op_eax_v op_i_z op_none
    ∷ p push_cs "PUSH" false (op Addressing.cs Size.none "CS") op_none op_none
    ∷ p twobyte "2BYTE" false op_none op_none op_none
    ∷ p adc_eb_gb "ADC" true op_e_b op_g_b op_none
    ∷ p adc_ev_gv "ADC" true op_e_v op_g_v op_none
    ∷ p adc_gb_eb "ADC" true op_g_b op_e_b op_none
    ∷ p adc_gv_ev "ADC" true op_g_v op_e_v op_none
    ∷ p adc_al_ib "ADC" false (op Addressing.al Size.b "AL") op_i_b op_none
    ∷ p adc_eax_iv "ADC" false op_eax_v op_i_z op_none
    ∷ p push_ss "PUSH" false (op Addressing.ss Size.none "SS") op_none op_none
    ∷ p pop_ss "POP" false (op Addressing.ss Size.none "SS") op_none op_none
    ∷ p sbb_eb_gb "SBB" true op_e_b op_g_b op_none
    ∷ p sbb_ev_gv "SBB" true op_e_v op_g_v op_none
    ∷ p sbb_gb_eb "SBB" true op_g_b op_e_b op_none
    ∷ p sbb_gv_ev "SBB" true op_g_v op_e_v op_none
    ∷ p sbb_al_ib "SBB" false (op Addressing.al Size.b "AL") op_i_b op_none
    ∷ p sbb_eax_iv "SBB" false op_eax_v op_i_z op_none
    ∷ p push_ds "PUSH" false (op Addressing.ds Size.none "DS") op_none op_none
    ∷ p pop_ds "POP" false (op Addressing.ds Size.none "DS") op_none op_none
    ∷ p and_eb_gb "AND" true op_e_b op_g_b op_none
    ∷ p and_ev_gv "AND" true op_e_v op_g_v op_none
    ∷ p and_gb_eb "AND" true op_g_b op_e_b op_none
    ∷ p and_gv_ev "AND" true op_g_v op_e_v op_none
    ∷ p and_al_ib "AND" false (op Addressing.al Size.b "AL") op_i_b op_none
    ∷ p and_eax_iv "AND" false op_eax_v op_i_z op_none
    ∷ p es "ES" false op_none op_none op_none
    ∷ p daa "DAA" false op_none op_none op_none
    ∷ p sub_eb_gb "SUB" true op_e_b op_g_b op_none
    ∷ p sub_ev_gv "SUB" true op_e_v op_g_v op_none
    ∷ p sub_gb_eb "SUB" true op_g_b op_e_b op_none
    ∷ p sub_gv_ev "SUB" true op_g_v op_e_v op_none
    ∷ p sub_al_ib "SUB" false (op Addressing.al Size.b "AL") op_i_b op_none
    ∷ p sub_eax_iv "SUB" false op_eax_v op_i_z op_none
    ∷ p cs "CS" false op_none op_none op_none
    ∷ p das "DAS" false op_none op_none op_none
    ∷ p xor_eb_gb "XOR" true op_e_b op_g_b op_none
    ∷ p xor_ev_gv "XOR" true op_e_v op_g_v op_none
    ∷ p xor_gb_eb "XOR" true op_g_b op_e_b op_none
    ∷ p xor_gv_ev "XOR" true op_g_v op_e_v op_none
    ∷ p xor_al_ib "XOR" false (op Addressing.al Size.b "AL") op_i_b op_none
    ∷ p xor_eax_iv "XOR" false op_eax_v op_i_z op_none
    ∷ p ss "SS" false op_none op_none op_none
    ∷ p aaa "AAA" false op_none op_none op_none
    ∷ p cmp_eb_gb "CMP" true op_e_b op_g_b op_none
    ∷ p cmp_ev_gv "CMP" true op_e_v op_g_v op_none
    ∷ p cmp_gb_eb "CMP" true op_g_b op_e_b op_none
    ∷ p cmp_gv_ev "CMP" true op_g_v op_e_v op_none
    ∷ p cmp_al_ib "CMP" false (op Addressing.al Size.b "AL") op_i_b op_none
    ∷ p cmp_eax_iv "CMP" false op_eax_v op_i_z op_none
    ∷ p ds "DS" false op_none op_none op_none
    ∷ p aas "AAS" false op_none op_none op_none
    ∷ []
