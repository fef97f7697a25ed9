-- ===== src/X86/Vex/Map1.antt =====
-- VEX rows of src/arch/x86_64/x86_64_tables.cpp.
use voidwalk.Common.{[], ◌∷◌, List, true, false}
use voidwalk.X86.Types.{Write, not_group}
use voidwalk.X86.Operands.{op_e_d, op_e_y, op_g_d, op_h, op_i_b, op_none, op_v_dq, op_w, op_w_dq}
use voidwalk.X86.Rows.{assign, row, xr, xrg, xrw, xvhw, xvhwc, xvhwi, xvw, xvwi, xvws, xvwx, xwv}

-- 0F, no prefix.
unfoldable pub vex_0f : List Write
vex_0f =
    xvw 0 0x10 "VMOVUPS"
    ∷ xwv 0 0x11 "VMOVUPS"
    ∷ xr 0 0x12 "VMOVLPS" true op_v_dq op_w_dq op_none
    ∷ xr 0 0x13 "VMOVLPS" false op_w_dq op_v_dq op_none
    ∷ xvhw 0 0x14 "VUNPCKLPS"
    ∷ xvhw 0 0x15 "VUNPCKHPS"
    ∷ xr 0 0x16 "VMOVHPS" true op_v_dq op_w_dq op_none
    ∷ xr 0 0x17 "VMOVHPS" false op_w_dq op_v_dq op_none
    ∷ xvw 0 0x28 "VMOVAPS"
    ∷ xwv 0 0x29 "VMOVAPS"
    ∷ xwv 0 0x2b "VMOVNTPS"
    ∷ xvws 0 0x2e "VUCOMISS"
    ∷ xvws 0 0x2f "VCOMISS"
    ∷ xr 0 0x50 "VMOVMSKPS" false op_g_d op_w op_none
    ∷ xvw 0 0x51 "VSQRTPS"
    ∷ xvw 0 0x52 "VRSQRTPS"
    ∷ xvw 0 0x53 "VRCPPS"
    ∷ xvhw 0 0x54 "VANDPS"
    ∷ xvhw 0 0x55 "VANDNPS"
    ∷ xvhw 0 0x56 "VORPS"
    ∷ xvhw 0 0x57 "VXORPS"
    ∷ xvhw 0 0x58 "VADDPS"
    ∷ xvhw 0 0x59 "VMULPS"
    ∷ xvwx 0 0x5a "VCVTPS2PD"
    ∷ xvw 0 0x5b "VCVTDQ2PS"
    ∷ xvhw 0 0x5c "VSUBPS"
    ∷ xvhw 0 0x5d "VMINPS"
    ∷ xvhw 0 0x5e "VDIVPS"
    ∷ xvhw 0 0x5f "VMAXPS"
    ∷ assign 0x77 (row "VZEROUPPER" "" false op_none op_none op_none not_group)
    ∷ xrg 0 0xae 22 op_none op_none op_none
    ∷ xvhwi 0 0xc2 "VCMPPS"
    ∷ xvhwi 0 0xc6 "VSHUFPS"
    ∷ []

-- 66 0F.
unfoldable pub vex_66_0f : List Write
vex_66_0f =
    xvw 1 0x10 "VMOVUPD"
    ∷ xwv 1 0x11 "VMOVUPD"
    ∷ xr 1 0x12 "VMOVLPD" true op_v_dq op_w_dq op_none
    ∷ xr 1 0x13 "VMOVLPD" false op_w_dq op_v_dq op_none
    ∷ xvhw 1 0x14 "VUNPCKLPD"
    ∷ xvhw 1 0x15 "VUNPCKHPD"
    ∷ xr 1 0x16 "VMOVHPD" true op_v_dq op_w_dq op_none
    ∷ xr 1 0x17 "VMOVHPD" false op_w_dq op_v_dq op_none
    ∷ xvw 1 0x28 "VMOVAPD"
    ∷ xwv 1 0x29 "VMOVAPD"
    ∷ xwv 1 0x2b "VMOVNTPD"
    ∷ xvws 1 0x2e "VUCOMISD"
    ∷ xvws 1 0x2f "VCOMISD"
    ∷ xr 1 0x50 "VMOVMSKPD" false op_g_d op_w op_none
    ∷ xvw 1 0x51 "VSQRTPD"
    ∷ xvhw 1 0x54 "VANDPD"
    ∷ xvhw 1 0x55 "VANDNPD"
    ∷ xvhw 1 0x56 "VORPD"
    ∷ xvhw 1 0x57 "VXORPD"
    ∷ xvhw 1 0x58 "VADDPD"
    ∷ xvhw 1 0x59 "VMULPD"
    ∷ xr 1 0x5a "VCVTPD2PS" false op_v_dq op_w op_none
    ∷ xvw 1 0x5b "VCVTPS2DQ"
    ∷ xvhw 1 0x5c "VSUBPD"
    ∷ xvhw 1 0x5d "VMINPD"
    ∷ xvhw 1 0x5e "VDIVPD"
    ∷ xvhw 1 0x5f "VMAXPD"
    ∷ xvhw 1 0x60 "VPUNPCKLBW"
    ∷ xvhw 1 0x61 "VPUNPCKLWD"
    ∷ xvhw 1 0x62 "VPUNPCKLDQ"
    ∷ xvhw 1 0x63 "VPACKSSWB"
    ∷ xvhw 1 0x64 "VPCMPGTB"
    ∷ xvhw 1 0x65 "VPCMPGTW"
    ∷ xvhw 1 0x66 "VPCMPGTD"
    ∷ xvhw 1 0x67 "VPACKUSWB"
    ∷ xvhw 1 0x68 "VPUNPCKHBW"
    ∷ xvhw 1 0x69 "VPUNPCKHWD"
    ∷ xvhw 1 0x6a "VPUNPCKHDQ"
    ∷ xvhw 1 0x6b "VPACKSSDW"
    ∷ xvhw 1 0x6c "VPUNPCKLQDQ"
    ∷ xvhw 1 0x6d "VPUNPCKHQDQ"
    ∷ xrw 1 0x6e "VMOVD" "VMOVQ" false op_v_dq op_e_y op_none
    ∷ xvw 1 0x6f "VMOVDQA"
    ∷ xvwi 1 0x70 "VPSHUFD"
    ∷ xrg 1 0x71 19 op_h op_w op_i_b
    ∷ xrg 1 0x72 20 op_h op_w op_i_b
    ∷ xrg 1 0x73 21 op_h op_w op_i_b
    ∷ xvhw 1 0x74 "VPCMPEQB"
    ∷ xvhw 1 0x75 "VPCMPEQW"
    ∷ xvhw 1 0x76 "VPCMPEQD"
    ∷ xvhw 1 0x7c "VHADDPD"
    ∷ xvhw 1 0x7d "VHSUBPD"
    ∷ xrw 1 0x7e "VMOVD" "VMOVQ" false op_e_y op_v_dq op_none
    ∷ xwv 1 0x7f "VMOVDQA"
    ∷ xvhwi 1 0xc2 "VCMPPD"
    ∷ xr 1 0xc4 "VPINSRW" true op_v_dq op_e_d op_i_b
    ∷ xr 1 0xc5 "VPEXTRW" false op_g_d op_w_dq op_i_b
    ∷ xvhwi 1 0xc6 "VSHUFPD"
    ∷ xvhw 1 0xd0 "VADDSUBPD"
    ∷ xvhwc 1 0xd1 "VPSRLW"
    ∷ xvhwc 1 0xd2 "VPSRLD"
    ∷ xvhwc 1 0xd3 "VPSRLQ"
    ∷ xvhw 1 0xd4 "VPADDQ"
    ∷ xvhw 1 0xd5 "VPMULLW"
    ∷ xr 1 0xd6 "VMOVQ" false op_w_dq op_v_dq op_none
    ∷ xr 1 0xd7 "VPMOVMSKB" false op_g_d op_w op_none
    ∷ xvhw 1 0xd8 "VPSUBUSB"
    ∷ xvhw 1 0xd9 "VPSUBUSW"
    ∷ xvhw 1 0xda "VPMINUB"
    ∷ xvhw 1 0xdb "VPAND"
    ∷ xvhw 1 0xdc "VPADDUSB"
    ∷ xvhw 1 0xdd "VPADDUSW"
    ∷ xvhw 1 0xde "VPMAXUB"
    ∷ xvhw 1 0xdf "VPANDN"
    ∷ xvhw 1 0xe0 "VPAVGB"
    ∷ xvhwc 1 0xe1 "VPSRAW"
    ∷ xvhwc 1 0xe2 "VPSRAD"
    ∷ xvhw 1 0xe3 "VPAVGW"
    ∷ xvhw 1 0xe4 "VPMULHUW"
    ∷ xvhw 1 0xe5 "VPMULHW"
    ∷ xr 1 0xe6 "VCVTTPD2DQ" false op_v_dq op_w op_none
    ∷ xwv 1 0xe7 "VMOVNTDQ"
    ∷ xvhw 1 0xe8 "VPSUBSB"
    ∷ xvhw 1 0xe9 "VPSUBSW"
    ∷ xvhw 1 0xea "VPMINSW"
    ∷ xvhw 1 0xeb "VPOR"
    ∷ xvhw 1 0xec "VPADDSB"
    ∷ xvhw 1 0xed "VPADDSW"
    ∷ xvhw 1 0xee "VPMAXSW"
    ∷ xvhw 1 0xef "VPXOR"
    ∷ xvhwc 1 0xf1 "VPSLLW"
    ∷ xvhwc 1 0xf2 "VPSLLD"
    ∷ xvhwc 1 0xf3 "VPSLLQ"
    ∷ xvhw 1 0xf4 "VPMULUDQ"
    ∷ xvhw 1 0xf5 "VPMADDWD"
    ∷ xvhw 1 0xf6 "VPSADBW"
    ∷ xvws 1 0xf7 "VMASKMOVDQU"
    ∷ xvhw 1 0xf8 "VPSUBB"
    ∷ xvhw 1 0xf9 "VPSUBW"
    ∷ xvhw 1 0xfa "VPSUBD"
    ∷ xvhw 1 0xfb "VPSUBQ"
    ∷ xvhw 1 0xfc "VPADDB"
    ∷ xvhw 1 0xfd "VPADDW"
    ∷ xvhw 1 0xfe "VPADDD"
    ∷ []
