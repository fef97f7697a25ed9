-- ===== src/X86/Vex/Map3.antt =====
-- VEX rows of src/arch/x86_64/x86_64_tables.cpp.
use voidwalk.Common.{[], ◌∷◌, List, true, false}
use voidwalk.X86.Types.{Write}
use voidwalk.X86.Operands.{
  op_e_d, op_e_y, op_g_y, op_h_y, op_i_b, op_l_b, op_none, op_v, op_v_dq, op_w, op_w_dq,
}
use voidwalk.X86.Rows.{xr, xrg, xrw, xvhwi, xvwi}

-- BMI1 and BMI2.
unfoldable pub vex_bmi : List Write
vex_bmi =
    xr 4 0xf2 "ANDN" true op_g_y op_e_y op_none
    ∷ xrg 4 0xf3 23 op_h_y op_e_y op_none
    ∷ xr 4 0xf5 "BZHI" false op_g_y op_e_y op_h_y
    ∷ xr 4 0xf7 "BEXTR" false op_g_y op_e_y op_h_y
    ∷ xr 5 0xf7 "SHLX" false op_g_y op_e_y op_h_y
    ∷ xr 6 0xf5 "PEXT" true op_g_y op_e_y op_none
    ∷ xr 6 0xf7 "SARX" false op_g_y op_e_y op_h_y
    ∷ xr 7 0xf5 "PDEP" true op_g_y op_e_y op_none
    ∷ xr 7 0xf6 "MULX" true op_g_y op_e_y op_none
    ∷ xr 7 0xf7 "SHRX" false op_g_y op_e_y op_h_y
    ∷ xr 11 0xf0 "RORX" false op_g_y op_e_y op_i_b
    ∷ []

-- 66 0F 3A.
unfoldable pub vex_66_0f3a : List Write
vex_66_0f3a =
    xvwi 9 0x00 "VPERMQ"
    ∷ xvwi 9 0x01 "VPERMPD"
    ∷ xvhwi 9 0x02 "VPBLENDD"
    ∷ xvwi 9 0x04 "VPERMILPS"
    ∷ xvwi 9 0x05 "VPERMILPD"
    ∷ xvhwi 9 0x06 "VPERM2F128"
    ∷ xvwi 9 0x08 "VROUNDPS"
    ∷ xvwi 9 0x09 "VROUNDPD"
    ∷ xr 9 0x0a "VROUNDSS" true op_v_dq op_w_dq op_i_b
    ∷ xr 9 0x0b "VROUNDSD" true op_v_dq op_w_dq op_i_b
    ∷ xvhwi 9 0x0c "VBLENDPS"
    ∷ xvhwi 9 0x0d "VBLENDPD"
    ∷ xvhwi 9 0x0e "VPBLENDW"
    ∷ xvhwi 9 0x0f "VPALIGNR"
    ∷ xr 9 0x14 "VPEXTRB" false op_e_d op_v_dq op_i_b
    ∷ xr 9 0x15 "VPEXTRW" false op_e_d op_v_dq op_i_b
    ∷ xrw 9 0x16 "VPEXTRD" "VPEXTRQ" false op_e_y op_v_dq op_i_b
    ∷ xr 9 0x17 "VEXTRACTPS" false op_e_d op_v_dq op_i_b
    ∷ xr 9 0x18 "VINSERTF128" true op_v op_w_dq op_i_b
    ∷ xr 9 0x19 "VEXTRACTF128" false op_w_dq op_v op_i_b
    ∷ xr 9 0x20 "VPINSRB" true op_v_dq op_e_d op_i_b
    ∷ xr 9 0x21 "VINSERTPS" true op_v_dq op_w_dq op_i_b
    ∷ xrw 9 0x22 "VPINSRD" "VPINSRQ" true op_v_dq op_e_y op_i_b
    ∷ xr 9 0x38 "VINSERTI128" true op_v op_w_dq op_i_b
    ∷ xr 9 0x39 "VEXTRACTI128" false op_w_dq op_v op_i_b
    ∷ xvhwi 9 0x40 "VDPPS"
    ∷ xvhwi 9 0x41 "VDPPD"
    ∷ xvhwi 9 0x42 "VMPSADBW"
    ∷ xvhwi 9 0x46 "VPERM2I128"
    ∷ xr 9 0x4a "VBLENDVPS" true op_v op_w op_l_b
    ∷ xr 9 0x4b "VBLENDVPD" true op_v op_w op_l_b
    ∷ xr 9 0x4c "VPBLENDVB" true op_v op_w op_l_b
    ∷ xr 9 0x60 "VPCMPESTRM" false op_v_dq op_w_dq op_i_b
    ∷ xr 9 0x61 "VPCMPESTRI" false op_v_dq op_w_dq op_i_b
    ∷ xr 9 0x62 "VPCMPISTRM" false op_v_dq op_w_dq op_i_b
    ∷ xr 9 0x63 "VPCMPISTRI" false op_v_dq op_w_dq op_i_b
    ∷ []
