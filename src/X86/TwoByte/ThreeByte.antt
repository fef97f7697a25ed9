-- ===== src/X86/TwoByte/ThreeByte.antt =====
-- The 0F 38 and 0F 3A rows of src/arch/x86_64/x86_64_tables.cpp.
use voidwalk.Common.{[], ◌∷◌, List}
use voidwalk.X86.Types.{Addressing, Size, Write, op}
use voidwalk.X86.Operands.{op_e_d, op_e_y, op_i_b, op_none, op_v, op_w}
use voidwalk.X86.Rows.{tpq, tr, tvw, tvwi}

-- SSSE3, SSE4.1 and SSE4.2.
unfoldable pub three_byte_rows : List Write
three_byte_rows =
    tpq 2 0x00 "PSHUFB" op_none
    ∷ tpq 2 0x01 "PHADDW" op_none
    ∷ tpq 2 0x02 "PHADDD" op_none
    ∷ tpq 2 0x03 "PHADDSW" op_none
    ∷ tpq 2 0x04 "PMADDUBSW" op_none
    ∷ tpq 2 0x05 "PHSUBW" op_none
    ∷ tpq 2 0x06 "PHSUBD" op_none
    ∷ tpq 2 0x07 "PHSUBSW" op_none
    ∷ tpq 2 0x08 "PSIGNB" op_none
    ∷ tpq 2 0x09 "PSIGNW" op_none
    ∷ tpq 2 0x0a "PSIGND" op_none
    ∷ tpq 2 0x0b "PMULHRSW" op_none
    ∷ tpq 2 0x1c "PABSB" op_none
    ∷ tpq 2 0x1d "PABSW" op_none
    ∷ tpq 2 0x1e "PABSD" op_none
    ∷ tpq 3 0x0f "PALIGNR" op_i_b
    ∷ tr 2 0x10 "PBLENDVB" "" op_v op_w (op Addressing.st Size.none "XMM0")
    ∷ tr 2 0x14 "BLENDVPS" "" op_v op_w (op Addressing.st Size.none "XMM0")
    ∷ tr 2 0x15 "BLENDVPD" "" op_v op_w (op Addressing.st Size.none "XMM0")
    ∷ tvw 2 0x17 "PTEST"
    ∷ tvw 2 0x20 "PMOVSXBW"
    ∷ tvw 2 0x21 "PMOVSXBD"
    ∷ tvw 2 0x22 "PMOVSXBQ"
    ∷ tvw 2 0x23 "PMOVSXWD"
    ∷ tvw 2 0x24 "PMOVSXWQ"
    ∷ tvw 2 0x25 "PMOVSXDQ"
    ∷ tvw 2 0x28 "PMULDQ"
    ∷ tvw 2 0x29 "PCMPEQQ"
    ∷ tvw 2 0x2a "MOVNTDQA"
    ∷ tvw 2 0x2b "PACKUSDW"
    ∷ tvw 2 0x30 "PMOVZXBW"
    ∷ tvw 2 0x31 "PMOVZXBD"
    ∷ tvw 2 0x32 "PMOVZXBQ"
    ∷ tvw 2 0x33 "PMOVZXWD"
    ∷ tvw 2 0x34 "PMOVZXWQ"
    ∷ tvw 2 0x35 "PMOVZXDQ"
    ∷ tvw 2 0x38 "PMINSB"
    ∷ tvw 2 0x39 "PMINSD"
    ∷ tvw 2 0x3a "PMINUW"
    ∷ tvw 2 0x3b "PMINUD"
    ∷ tvw 2 0x3c "PMAXSB"
    ∷ tvw 2 0x3d "PMAXSD"
    ∷ tvw 2 0x3e "PMAXUW"
    ∷ tvw 2 0x3f "PMAXUD"
    ∷ tvw 2 0x40 "PMULLD"
    ∷ tvw 2 0x41 "PHMINPOSUW"
    ∷ tvwi 3 0x08 "ROUNDPS"
    ∷ tvwi 3 0x09 "ROUNDPD"
    ∷ tvwi 3 0x0a "ROUNDSS"
    ∷ tvwi 3 0x0b "ROUNDSD"
    ∷ tvwi 3 0x0c "BLENDPS"
    ∷ tvwi 3 0x0d "BLENDPD"
    ∷ tvwi 3 0x0e "PBLENDW"
    ∷ tr 3 0x14 "PEXTRB" "" op_e_d op_v op_i_b
    ∷ tr 3 0x15 "PEXTRW" "" op_e_d op_v op_i_b
    ∷ tr 3 0x16 "PEXTRD" "PEXTRQ" op_e_y op_v op_i_b
    ∷ tr 3 0x17 "EXTRACTPS" "" op_e_d op_v op_i_b
    ∷ tr 3 0x20 "PINSRB" "" op_v op_e_d op_i_b
    ∷ tvwi 3 0x21 "INSERTPS"
    ∷ tr 3 0x22 "PINSRD" "PINSRQ" op_v op_e_y op_i_b
    ∷ tvwi 3 0x40 "DPPS"
    ∷ tvwi 3 0x41 "DPPD"
    ∷ tvwi 3 0x42 "MPSADBW"
    ∷ tvw 2 0x37 "PCMPGTQ"
    ∷ tvwi 3 0x60 "PCMPESTRM"
    ∷ tvwi 3 0x61 "PCMPESTRI"
    ∷ tvwi 3 0x62 "PCMPISTRM"
    ∷ tvwi 3 0x63 "PCMPISTRI"
    ∷ []
