-- ===== src/X86/TwoByte/General.antt =====
-- The 0F opcode map of src/arch/x86_64/x86_64_tables.cpp: the rows on general registers.
use voidwalk.Common.{[], ◌∷◌, List, true, false}
use voidwalk.X86.Types.{Write}
use voidwalk.X86.Operands.{op_e_b, op_e_v, op_e_w, op_g_b, op_g_v, op_i_b, op_j_z, op_none, op_z_v}
use voidwalk.X86.Rows.{t, tg}

-- System calls, conditional moves, jumps and sets, bit tests, BSWAP.
unfoldable pub two_byte_general : List Write
two_byte_general =
    t 0x0b "UD2" false op_none op_none op_none
    ∷ t 0x31 "RDTSC" false op_none op_none op_none
    ∷ t 0xa2 "CPUID" false op_none op_none op_none
    ∷ t 0x05 "SYSCALL" false op_none op_none op_none
    ∷ t 0x07 "SYSRET" false op_none op_none op_none
    ∷ t 0x34 "SYSENTER" false op_none op_none op_none
    ∷ t 0x35 "SYSEXIT" false op_none op_none op_none
    ∷ t 0x1f "NOP" true op_e_v op_none op_none
    ∷ t 0x1e "NOP" true op_e_v op_none op_none
    ∷ t 0xa4 "SHLD" true op_e_v op_g_v op_i_b
    ∷ t 0xa5 "SHLD" true op_e_v op_g_v op_none
    ∷ t 0xac "SHRD" true op_e_v op_g_v op_i_b
    ∷ t 0xad "SHRD" true op_e_v op_g_v op_none
    ∷ t 0x40 "CMOVO" true op_g_v op_e_v op_none
    ∷ t 0x41 "CMOVNO" true op_g_v op_e_v op_none
    ∷ t 0x42 "CMOVB" true op_g_v op_e_v op_none
    ∷ t 0x43 "CMOVNB" true op_g_v op_e_v op_none
    ∷ t 0x44 "CMOVZ" true op_g_v op_e_v op_none
    ∷ t 0x45 "CMOVNZ" true op_g_v op_e_v op_none
    ∷ t 0x46 "CMOVBE" true op_g_v op_e_v op_none
    ∷ t 0x47 "CMOVA" true op_g_v op_e_v op_none
    ∷ t 0x48 "CMOVS" true op_g_v op_e_v op_none
    ∷ t 0x49 "CMOVNS" true op_g_v op_e_v op_none
    ∷ t 0x4a "CMOVP" true op_g_v op_e_v op_none
    ∷ t 0x4b "CMOVNP" true op_g_v op_e_v op_none
    ∷ t 0x4c "CMOVL" true op_g_v op_e_v op_none
    ∷ t 0x4d "CMOVNL" true op_g_v op_e_v op_none
    ∷ t 0x4e "CMOVLE" true op_g_v op_e_v op_none
    ∷ t 0x4f "CMOVNLE" true op_g_v op_e_v op_none
    ∷ t 0x80 "JO" false op_j_z op_none op_none
    ∷ t 0x81 "JNO" false op_j_z op_none op_none
    ∷ t 0x82 "JB" false op_j_z op_none op_none
    ∷ t 0x83 "JNB" false op_j_z op_none op_none
    ∷ t 0x84 "JZ" false op_j_z op_none op_none
    ∷ t 0x85 "JNZ" false op_j_z op_none op_none
    ∷ t 0x86 "JBE" false op_j_z op_none op_none
    ∷ t 0x87 "JA" false op_j_z op_none op_none
    ∷ t 0x88 "JS" false op_j_z op_none op_none
    ∷ t 0x89 "JNS" false op_j_z op_none op_none
    ∷ t 0x8a "JP" false op_j_z op_none op_none
    ∷ t 0x8b "JNP" false op_j_z op_none op_none
    ∷ t 0x8c "JL" false op_j_z op_none op_none
    ∷ t 0x8d "JNL" false op_j_z op_none op_none
    ∷ t 0x8e "JLE" false op_j_z op_none op_none
    ∷ t 0x8f "JNLE" false op_j_z op_none op_none
    ∷ t 0x90 "SETO" true op_e_b op_none op_none
    ∷ t 0x91 "SETNO" true op_e_b op_none op_none
    ∷ t 0x92 "SETB" true op_e_b op_none op_none
    ∷ t 0x93 "SETNB" true op_e_b op_none op_none
    ∷ t 0x94 "SETZ" true op_e_b op_none op_none
    ∷ t 0x95 "SETNZ" true op_e_b op_none op_none
    ∷ t 0x96 "SETBE" true op_e_b op_none op_none
    ∷ t 0x97 "SETA" true op_e_b op_none op_none
    ∷ t 0x98 "SETS" true op_e_b op_none op_none
    ∷ t 0x99 "SETNS" true op_e_b op_none op_none
    ∷ t 0x9a "SETP" true op_e_b op_none op_none
    ∷ t 0x9b "SETNP" true op_e_b op_none op_none
    ∷ t 0x9c "SETL" true op_e_b op_none op_none
    ∷ t 0x9d "SETNL" true op_e_b op_none op_none
    ∷ t 0x9e "SETLE" true op_e_b op_none op_none
    ∷ t 0x9f "SETNLE" true op_e_b op_none op_none
    ∷ t 0xa3 "BT" true op_e_v op_g_v op_none
    ∷ t 0xab "BTS" true op_e_v op_g_v op_none
    ∷ t 0xb3 "BTR" true op_e_v op_g_v op_none
    ∷ t 0xbb "BTC" true op_e_v op_g_v op_none
    ∷ t 0xaf "IMUL" true op_g_v op_e_v op_none
    ∷ t 0xb0 "CMPXCHG" true op_e_b op_g_b op_none
    ∷ t 0xb1 "CMPXCHG" true op_e_v op_g_v op_none
    ∷ t 0xc0 "XADD" true op_e_b op_g_b op_none
    ∷ t 0xc1 "XADD" true op_e_v op_g_v op_none
    ∷ t 0xb6 "MOVZX" true op_g_v op_e_b op_none
    ∷ t 0xb7 "MOVZX" true op_g_v op_e_w op_none
    ∷ t 0xbe "MOVSX" true op_g_v op_e_b op_none
    ∷ t 0xbf "MOVSX" true op_g_v op_e_w op_none
    ∷ t 0xbc "BSF" true op_g_v op_e_v op_none
    ∷ t 0xbd "BSR" true op_g_v op_e_v op_none
    ∷ tg 0xba "GRP8" true op_e_v op_i_b op_none 8
    ∷ t 0xc8 "BSWAP" false op_z_v op_none op_none
    ∷ t 0xc9 "BSWAP" false op_z_v op_none op_none
    ∷ t 0xca "BSWAP" false op_z_v op_none op_none
    ∷ t 0xcb "BSWAP" false op_z_v op_none op_none
    ∷ t 0xcc "BSWAP" false op_z_v op_none op_none
    ∷ t 0xcd "BSWAP" false op_z_v op_none op_none
    ∷ t 0xce "BSWAP" false op_z_v op_none op_none
    ∷ t 0xcf "BSWAP" false op_z_v op_none op_none
    ∷ []
