-- ===== src/X86/TwoByte/SimdRows.antt =====
-- The 0F opcode map of src/arch/x86_64/x86_64_tables.cpp: the MMX and SSE rows.
use voidwalk.Common.{[], ◌∷◌, List, true, false}
use voidwalk.X86.Types.{Write}
use voidwalk.X86.Operands.{
  op_e_d, op_e_v, op_g_d, op_g_v, op_i_b, op_m, op_none, op_p, op_q, op_v, op_w,
}
use voidwalk.X86.Rows.{name64, pq, t, tg, vw}

-- The rows with no mandatory prefix.
unfoldable pub two_byte_simd : List Write
two_byte_simd =
    vw 0x10 "MOVUPS"
    ∷ t 0x11 "MOVUPS" true op_w op_v op_none
    ∷ vw 0x12 "MOVLPS"
    ∷ t 0x13 "MOVLPS" true op_w op_v op_none
    ∷ vw 0x14 "UNPCKLPS"
    ∷ vw 0x15 "UNPCKHPS"
    ∷ vw 0x16 "MOVHPS"
    ∷ t 0x17 "MOVHPS" true op_w op_v op_none
    ∷ vw 0x28 "MOVAPS"
    ∷ t 0x29 "MOVAPS" true op_w op_v op_none
    ∷ t 0x2a "CVTPI2PS" true op_v op_q op_none
    ∷ t 0x2b "MOVNTPS" true op_w op_v op_none
    ∷ t 0x2c "CVTTPS2PI" true op_p op_w op_none
    ∷ t 0x2d "CVTPS2PI" true op_p op_w op_none
    ∷ vw 0x2e "UCOMISS"
    ∷ vw 0x2f "COMISS"
    ∷ t 0x50 "MOVMSKPS" true op_g_d op_w op_none
    ∷ vw 0x51 "SQRTPS"
    ∷ vw 0x52 "RSQRTPS"
    ∷ vw 0x53 "RCPPS"
    ∷ vw 0x54 "ANDPS"
    ∷ vw 0x55 "ANDNPS"
    ∷ vw 0x56 "ORPS"
    ∷ vw 0x57 "XORPS"
    ∷ vw 0x58 "ADDPS"
    ∷ vw 0x59 "MULPS"
    ∷ vw 0x5a "CVTPS2PD"
    ∷ vw 0x5b "CVTDQ2PS"
    ∷ vw 0x5c "SUBPS"
    ∷ vw 0x5d "MINPS"
    ∷ vw 0x5e "DIVPS"
    ∷ vw 0x5f "MAXPS"
    ∷ pq 0x60 "PUNPCKLBW"
    ∷ pq 0x61 "PUNPCKLWD"
    ∷ pq 0x62 "PUNPCKLDQ"
    ∷ pq 0x63 "PACKSSWB"
    ∷ pq 0x64 "PCMPGTB"
    ∷ pq 0x65 "PCMPGTW"
    ∷ pq 0x66 "PCMPGTD"
    ∷ pq 0x67 "PACKUSWB"
    ∷ pq 0x68 "PUNPCKHBW"
    ∷ pq 0x69 "PUNPCKHWD"
    ∷ pq 0x6a "PUNPCKHDQ"
    ∷ pq 0x6b "PACKSSDW"
    ∷ t 0x6e "MOVD" true op_p op_e_v op_none
    ∷ name64 0x6e "MOVQ"
    ∷ pq 0x6f "MOVQ"
    ∷ t 0x70 "PSHUFW" true op_p op_q op_i_b
    ∷ tg 0x71 "GRP12" true op_q op_i_b op_none 12
    ∷ tg 0x72 "GRP13" true op_q op_i_b op_none 13
    ∷ tg 0x73 "GRP14" true op_q op_i_b op_none 14
    ∷ pq 0x74 "PCMPEQB"
    ∷ pq 0x75 "PCMPEQW"
    ∷ pq 0x76 "PCMPEQD"
    ∷ t 0x7e "MOVD" true op_e_v op_p op_none
    ∷ name64 0x7e "MOVQ"
    ∷ t 0x7f "MOVQ" true op_q op_p op_none
    ∷ t 0x77 "EMMS" false op_none op_none op_none
    ∷ t 0x0e "FEMMS" false op_none op_none op_none
    ∷ tg 0x0d "GRP18" true op_none op_none op_none 18
    ∷ t 0x0f "3DNOW" true op_p op_q op_none
    ∷ tg 0x18 "GRP16" true op_none op_none op_none 16
    ∷ tg 0xae "GRP15" true op_none op_none op_none 15
    ∷ t 0xc2 "CMPPS" true op_v op_w op_i_b
    ∷ t 0xc3 "MOVNTI" true op_m op_g_v op_none
    ∷ t 0xc4 "PINSRW" true op_p op_e_d op_i_b
    ∷ t 0xc5 "PEXTRW" true op_g_d op_q op_i_b
    ∷ t 0xc6 "SHUFPS" true op_v op_w op_i_b
    ∷ pq 0xd1 "PSRLW"
    ∷ pq 0xd2 "PSRLD"
    ∷ pq 0xd3 "PSRLQ"
    ∷ pq 0xd4 "PADDQ"
    ∷ pq 0xd5 "PMULLW"
    ∷ t 0xd7 "PMOVMSKB" true op_g_d op_q op_none
    ∷ pq 0xd8 "PSUBUSB"
    ∷ pq 0xd9 "PSUBUSW"
    ∷ pq 0xda "PMINUB"
    ∷ pq 0xdb "PAND"
    ∷ pq 0xdc "PADDUSB"
    ∷ pq 0xdd "PADDUSW"
    ∷ pq 0xde "PMAXUB"
    ∷ pq 0xdf "PANDN"
    ∷ pq 0xe0 "PAVGB"
    ∷ pq 0xe1 "PSRAW"
    ∷ pq 0xe2 "PSRAD"
    ∷ pq 0xe3 "PAVGW"
    ∷ pq 0xe4 "PMULHUW"
    ∷ pq 0xe5 "PMULHW"
    ∷ t 0xe7 "MOVNTQ" true op_q op_p op_none
    ∷ pq 0xe8 "PSUBSB"
    ∷ pq 0xe9 "PSUBSW"
    ∷ pq 0xea "PMINSW"
    ∷ pq 0xeb "POR"
    ∷ pq 0xec "PADDSB"
    ∷ pq 0xed "PADDSW"
    ∷ pq 0xee "PMAXSW"
    ∷ pq 0xef "PXOR"
    ∷ pq 0xf1 "PSLLW"
    ∷ pq 0xf2 "PSLLD"
    ∷ pq 0xf3 "PSLLQ"
    ∷ pq 0xf4 "PMULUDQ"
    ∷ pq 0xf5 "PMADDWD"
    ∷ pq 0xf6 "PSADBW"
    ∷ pq 0xf7 "MASKMOVQ"
    ∷ pq 0xf8 "PSUBB"
    ∷ pq 0xf9 "PSUBW"
    ∷ pq 0xfa "PSUBD"
    ∷ pq 0xfb "PSUBQ"
    ∷ pq 0xfc "PADDB"
    ∷ pq 0xfd "PADDW"
    ∷ pq 0xfe "PADDD"
    ∷ []
