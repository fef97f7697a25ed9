-- ===== src/X86/TwoByte/Prefixed.antt =====
-- The 0F rows that a mandatory prefix selects: src/arch/x86_64/x86_64_tables.cpp.
use voidwalk.Common.{[], ◌∷◌, List}
use voidwalk.X86.Types.{Write}
use voidwalk.X86.Operands.{op_e_v, op_g_d, op_g_v, op_i_b, op_none, op_p, op_q, op_v, op_w}
use voidwalk.X86.Rows.{pr, pvw, pwv}

-- 66: packed doubles, and the SSE2 integer rows.
unfoldable pub prefixed_66 : List Write
prefixed_66 =
    pvw 0 0x10 "MOVUPD"
    ∷ pwv 0 0x11 "MOVUPD"
    ∷ pvw 0 0x12 "MOVLPD"
    ∷ pwv 0 0x13 "MOVLPD"
    ∷ pvw 0 0x14 "UNPCKLPD"
    ∷ pvw 0 0x15 "UNPCKHPD"
    ∷ pvw 0 0x16 "MOVHPD"
    ∷ pwv 0 0x17 "MOVHPD"
    ∷ pvw 0 0x28 "MOVAPD"
    ∷ pwv 0 0x29 "MOVAPD"
    ∷ pr 0 0x2a "CVTPI2PD" op_v op_q op_none
    ∷ pwv 0 0x2b "MOVNTPD"
    ∷ pr 0 0x2c "CVTTPD2PI" op_p op_w op_none
    ∷ pr 0 0x2d "CVTPD2PI" op_p op_w op_none
    ∷ pvw 0 0x2e "UCOMISD"
    ∷ pvw 0 0x2f "COMISD"
    ∷ pr 0 0x50 "MOVMSKPD" op_g_d op_w op_none
    ∷ pvw 0 0x51 "SQRTPD"
    ∷ pvw 0 0x54 "ANDPD"
    ∷ pvw 0 0x55 "ANDNPD"
    ∷ pvw 0 0x56 "ORPD"
    ∷ pvw 0 0x57 "XORPD"
    ∷ pvw 0 0x58 "ADDPD"
    ∷ pvw 0 0x59 "MULPD"
    ∷ pvw 0 0x5a "CVTPD2PS"
    ∷ pvw 0 0x5b "CVTPS2DQ"
    ∷ pvw 0 0x5c "SUBPD"
    ∷ pvw 0 0x5d "MINPD"
    ∷ pvw 0 0x5e "DIVPD"
    ∷ pvw 0 0x5f "MAXPD"
    ∷ pvw 0 0x6c "PUNPCKLQDQ"
    ∷ pvw 0 0x6d "PUNPCKHQDQ"
    ∷ pvw 0 0x6f "MOVDQA"
    ∷ pr 0 0x70 "PSHUFD" op_v op_w op_i_b
    ∷ pwv 0 0x7f "MOVDQA"
    ∷ pr 0 0xc2 "CMPPD" op_v op_w op_i_b
    ∷ pr 0 0xc6 "SHUFPD" op_v op_w op_i_b
    ∷ pwv 0 0xd6 "MOVQ"
    ∷ pvw 0 0xe6 "CVTTPD2DQ"
    ∷ pwv 0 0xe7 "MOVNTDQ"
    ∷ pvw 0 0xf7 "MASKMOVDQU"
    ∷ pvw 0 0x7c "HADDPD"
    ∷ pvw 0 0x7d "HSUBPD"
    ∷ pvw 0 0xd0 "ADDSUBPD"
    ∷ []

-- F3: scalar singles, MOVDQU and the bit counts.
unfoldable pub prefixed_f3 : List Write
prefixed_f3 =
    pvw 1 0x10 "MOVSS"
    ∷ pwv 1 0x11 "MOVSS"
    ∷ pvw 1 0x12 "MOVSLDUP"
    ∷ pvw 1 0x16 "MOVSHDUP"
    ∷ pr 1 0x2a "CVTSI2SS" op_v op_e_v op_none
    ∷ pr 1 0x2c "CVTTSS2SI" op_g_v op_w op_none
    ∷ pr 1 0x2d "CVTSS2SI" op_g_v op_w op_none
    ∷ pvw 1 0x51 "SQRTSS"
    ∷ pvw 1 0x52 "RSQRTSS"
    ∷ pvw 1 0x53 "RCPSS"
    ∷ pvw 1 0x58 "ADDSS"
    ∷ pvw 1 0x59 "MULSS"
    ∷ pvw 1 0x5a "CVTSS2SD"
    ∷ pvw 1 0x5b "CVTTPS2DQ"
    ∷ pvw 1 0x5c "SUBSS"
    ∷ pvw 1 0x5d "MINSS"
    ∷ pvw 1 0x5e "DIVSS"
    ∷ pvw 1 0x5f "MAXSS"
    ∷ pvw 1 0x6f "MOVDQU"
    ∷ pr 1 0x70 "PSHUFHW" op_v op_w op_i_b
    ∷ pvw 1 0x7e "MOVQ"
    ∷ pwv 1 0x7f "MOVDQU"
    ∷ pr 1 0xb8 "POPCNT" op_g_v op_e_v op_none
    ∷ pr 1 0xbc "TZCNT" op_g_v op_e_v op_none
    ∷ pr 1 0xbd "LZCNT" op_g_v op_e_v op_none
    ∷ pr 1 0xc2 "CMPSS" op_v op_w op_i_b
    ∷ pr 1 0xd6 "MOVQ2DQ" op_v op_q op_none
    ∷ pvw 1 0xe6 "CVTDQ2PD"
    ∷ []

-- F2: scalar doubles.
unfoldable pub prefixed_f2 : List Write
prefixed_f2 =
    pvw 2 0x10 "MOVSD"
    ∷ pwv 2 0x11 "MOVSD"
    ∷ pvw 2 0x12 "MOVDDUP"
    ∷ pr 2 0x2a "CVTSI2SD" op_v op_e_v op_none
    ∷ pr 2 0x2c "CVTTSD2SI" op_g_v op_w op_none
    ∷ pr 2 0x2d "CVTSD2SI" op_g_v op_w op_none
    ∷ pvw 2 0x51 "SQRTSD"
    ∷ pvw 2 0x58 "ADDSD"
    ∷ pvw 2 0x59 "MULSD"
    ∷ pvw 2 0x5a "CVTSD2SS"
    ∷ pvw 2 0x5c "SUBSD"
    ∷ pvw 2 0x5d "MINSD"
    ∷ pvw 2 0x5e "DIVSD"
    ∷ pvw 2 0x5f "MAXSD"
    ∷ pr 2 0x70 "PSHUFLW" op_v op_w op_i_b
    ∷ pr 2 0xc2 "CMPSD" op_v op_w op_i_b
    ∷ pr 2 0xd6 "MOVDQ2Q" op_p op_w op_none
    ∷ pvw 2 0xe6 "CVTPD2DQ"
    ∷ pvw 2 0xf0 "LDDQU"
    ∷ pvw 2 0x7c "HADDPS"
    ∷ pvw 2 0x7d "HSUBPS"
    ∷ pvw 2 0xd0 "ADDSUBPS"
    ∷ []
