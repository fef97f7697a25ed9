-- ===== src/X86/Vex/Map1Scalar.antt =====
-- VEX rows of src/arch/x86_64/x86_64_tables.cpp.
use voidwalk.Common.{[], ◌∷◌, List, true, false}
use voidwalk.X86.Types.{Write}
use voidwalk.X86.Operands.{op_e_y, op_g_y, op_i_b, op_none, op_v_dq, op_w, op_w_dq}
use voidwalk.X86.Rows.{xr, xvhw, xvhws, xvw, xvwi, xvws, xvwx, xwv}

-- F3 0F.
unfoldable pub vex_f3_0f : List Write
vex_f3_0f =
    xr 2 0x10 "VMOVSS" true op_v_dq op_w_dq op_none
    ∷ xr 2 0x11 "VMOVSS" true op_w_dq op_v_dq op_none
    ∷ xvw 2 0x12 "VMOVSLDUP"
    ∷ xvw 2 0x16 "VMOVSHDUP"
    ∷ xr 2 0x2a "VCVTSI2SS" true op_v_dq op_e_y op_none
    ∷ xr 2 0x2c "VCVTTSS2SI" false op_g_y op_w_dq op_none
    ∷ xr 2 0x2d "VCVTSS2SI" false op_g_y op_w_dq op_none
    ∷ xvhws 2 0x51 "VSQRTSS"
    ∷ xvhws 2 0x52 "VRSQRTSS"
    ∷ xvhws 2 0x53 "VRCPSS"
    ∷ xvhws 2 0x58 "VADDSS"
    ∷ xvhws 2 0x59 "VMULSS"
    ∷ xvhws 2 0x5a "VCVTSS2SD"
    ∷ xvw 2 0x5b "VCVTTPS2DQ"
    ∷ xvhws 2 0x5c "VSUBSS"
    ∷ xvhws 2 0x5d "VMINSS"
    ∷ xvhws 2 0x5e "VDIVSS"
    ∷ xvhws 2 0x5f "VMAXSS"
    ∷ xvw 2 0x6f "VMOVDQU"
    ∷ xvwi 2 0x70 "VPSHUFHW"
    ∷ xvws 2 0x7e "VMOVQ"
    ∷ xwv 2 0x7f "VMOVDQU"
    ∷ xr 2 0xc2 "VCMPSS" true op_v_dq op_w_dq op_i_b
    ∷ xvwx 2 0xe6 "VCVTDQ2PD"
    ∷ []

-- F2 0F.
unfoldable pub vex_f2_0f : List Write
vex_f2_0f =
    xr 3 0x10 "VMOVSD" true op_v_dq op_w_dq op_none
    ∷ xr 3 0x11 "VMOVSD" true op_w_dq op_v_dq op_none
    ∷ xvw 3 0x12 "VMOVDDUP"
    ∷ xr 3 0x2a "VCVTSI2SD" true op_v_dq op_e_y op_none
    ∷ xr 3 0x2c "VCVTTSD2SI" false op_g_y op_w_dq op_none
    ∷ xr 3 0x2d "VCVTSD2SI" false op_g_y op_w_dq op_none
    ∷ xvhws 3 0x51 "VSQRTSD"
    ∷ xvhws 3 0x58 "VADDSD"
    ∷ xvhws 3 0x59 "VMULSD"
    ∷ xvhws 3 0x5a "VCVTSD2SS"
    ∷ xvhws 3 0x5c "VSUBSD"
    ∷ xvhws 3 0x5d "VMINSD"
    ∷ xvhws 3 0x5e "VDIVSD"
    ∷ xvhws 3 0x5f "VMAXSD"
    ∷ xvwi 3 0x70 "VPSHUFLW"
    ∷ xvhw 3 0x7c "VHADDPS"
    ∷ xvhw 3 0x7d "VHSUBPS"
    ∷ xr 3 0xc2 "VCMPSD" true op_v_dq op_w_dq op_i_b
    ∷ xvhw 3 0xd0 "VADDSUBPS"
    ∷ xr 3 0xe6 "VCVTPD2DQ" false op_v_dq op_w op_none
    ∷ xvw 3 0xf0 "VLDDQU"
    ∷ []
