-- ===== src/X86/Vex/Map2.antt =====
-- VEX rows of src/arch/x86_64/x86_64_tables.cpp.
use voidwalk.Common.{[], ◌∷◌, List, true, false}
use voidwalk.X86.Types.{Write}
use voidwalk.X86.Operands.{op_h, op_h_dq, op_none, op_v, op_v_dq, op_vsib, op_w}
use voidwalk.X86.Rows.{fp, fs, xr, xrw, xvhw, xvw, xvws, xvwx}

-- 66 0F 38.
unfoldable pub vex_66_0f38 : List Write
vex_66_0f38 =
    xvhw 5 0x00 "VPSHUFB"
    ∷ xvhw 5 0x01 "VPHADDW"
    ∷ xvhw 5 0x02 "VPHADDD"
    ∷ xvhw 5 0x03 "VPHADDSW"
    ∷ xvhw 5 0x04 "VPMADDUBSW"
    ∷ xvhw 5 0x05 "VPHSUBW"
    ∷ xvhw 5 0x06 "VPHSUBD"
    ∷ xvhw 5 0x07 "VPHSUBSW"
    ∷ xvhw 5 0x08 "VPSIGNB"
    ∷ xvhw 5 0x09 "VPSIGNW"
    ∷ xvhw 5 0x0a "VPSIGND"
    ∷ xvhw 5 0x0b "VPMULHRSW"
    ∷ xvhw 5 0x0c "VPERMILPS"
    ∷ xvhw 5 0x0d "VPERMILPD"
    ∷ xvw 5 0x0e "VTESTPS"
    ∷ xvw 5 0x0f "VTESTPD"
    ∷ xvhw 5 0x16 "VPERMPS"
    ∷ xvw 5 0x17 "VPTEST"
    ∷ xvwx 5 0x18 "VBROADCASTSS"
    ∷ xvwx 5 0x19 "VBROADCASTSD"
    ∷ xvwx 5 0x1a "VBROADCASTF128"
    ∷ xvw 5 0x1c "VPABSB"
    ∷ xvw 5 0x1d "VPABSW"
    ∷ xvw 5 0x1e "VPABSD"
    ∷ xvwx 5 0x20 "VPMOVSXBW"
    ∷ xvwx 5 0x21 "VPMOVSXBD"
    ∷ xvwx 5 0x22 "VPMOVSXBQ"
    ∷ xvwx 5 0x23 "VPMOVSXWD"
    ∷ xvwx 5 0x24 "VPMOVSXWQ"
    ∷ xvwx 5 0x25 "VPMOVSXDQ"
    ∷ xvhw 5 0x28 "VPMULDQ"
    ∷ xvhw 5 0x29 "VPCMPEQQ"
    ∷ xvw 5 0x2a "VMOVNTDQA"
    ∷ xvhw 5 0x2b "VPACKUSDW"
    ∷ xvhw 5 0x2c "VMASKMOVPS"
    ∷ xvhw 5 0x2d "VMASKMOVPD"
    ∷ xr 5 0x2e "VMASKMOVPS" true op_w op_v op_none
    ∷ xr 5 0x2f "VMASKMOVPD" true op_w op_v op_none
    ∷ xvwx 5 0x30 "VPMOVZXBW"
    ∷ xvwx 5 0x31 "VPMOVZXBD"
    ∷ xvwx 5 0x32 "VPMOVZXBQ"
    ∷ xvwx 5 0x33 "VPMOVZXWD"
    ∷ xvwx 5 0x34 "VPMOVZXWQ"
    ∷ xvwx 5 0x35 "VPMOVZXDQ"
    ∷ xvhw 5 0x36 "VPERMD"
    ∷ xvhw 5 0x37 "VPCMPGTQ"
    ∷ xvhw 5 0x38 "VPMINSB"
    ∷ xvhw 5 0x39 "VPMINSD"
    ∷ xvhw 5 0x3a "VPMINUW"
    ∷ xvhw 5 0x3b "VPMINUD"
    ∷ xvhw 5 0x3c "VPMAXSB"
    ∷ xvhw 5 0x3d "VPMAXSD"
    ∷ xvhw 5 0x3e "VPMAXUW"
    ∷ xvhw 5 0x3f "VPMAXUD"
    ∷ xvhw 5 0x40 "VPMULLD"
    ∷ xvws 5 0x41 "VPHMINPOSUW"
    ∷ xrw 5 0x45 "VPSRLVD" "VPSRLVQ" true op_v op_w op_none
    ∷ xvhw 5 0x46 "VPSRAVD"
    ∷ xrw 5 0x47 "VPSLLVD" "VPSLLVQ" true op_v op_w op_none
    ∷ xvwx 5 0x58 "VPBROADCASTD"
    ∷ xvwx 5 0x59 "VPBROADCASTQ"
    ∷ xvwx 5 0x5a "VBROADCASTI128"
    ∷ xvwx 5 0x78 "VPBROADCASTB"
    ∷ xvwx 5 0x79 "VPBROADCASTW"
    ∷ xrw 5 0x8c "VPMASKMOVD" "VPMASKMOVQ" true op_v op_w op_none
    ∷ xrw 5 0x8e "VPMASKMOVD" "VPMASKMOVQ" true op_w op_v op_none
    ∷ xrw 5 0x90 "VPGATHERDD" "VPGATHERDQ" false op_v op_vsib op_h
    ∷ xrw 5 0x91 "VPGATHERQD" "VPGATHERQQ" false op_v_dq op_vsib op_h_dq
    ∷ xrw 5 0x92 "VGATHERDPS" "VGATHERDPD" false op_v op_vsib op_h
    ∷ xrw 5 0x93 "VGATHERQPS" "VGATHERQPD" false op_v_dq op_vsib op_h_dq
    ∷ []

-- FMA, under 66 0F 38.
unfoldable pub vex_fma : List Write
vex_fma =
    fp 0x96 "VFMADDSUB132PS" "VFMADDSUB132PD"
    ∷ fp 0x97 "VFMSUBADD132PS" "VFMSUBADD132PD"
    ∷ fp 0x98 "VFMADD132PS" "VFMADD132PD"
    ∷ fs 0x99 "VFMADD132SS" "VFMADD132SD"
    ∷ fp 0x9a "VFMSUB132PS" "VFMSUB132PD"
    ∷ fs 0x9b "VFMSUB132SS" "VFMSUB132SD"
    ∷ fp 0x9c "VFNMADD132PS" "VFNMADD132PD"
    ∷ fs 0x9d "VFNMADD132SS" "VFNMADD132SD"
    ∷ fp 0x9e "VFNMSUB132PS" "VFNMSUB132PD"
    ∷ fs 0x9f "VFNMSUB132SS" "VFNMSUB132SD"
    ∷ fp 0xa6 "VFMADDSUB213PS" "VFMADDSUB213PD"
    ∷ fp 0xa7 "VFMSUBADD213PS" "VFMSUBADD213PD"
    ∷ fp 0xa8 "VFMADD213PS" "VFMADD213PD"
    ∷ fs 0xa9 "VFMADD213SS" "VFMADD213SD"
    ∷ fp 0xaa "VFMSUB213PS" "VFMSUB213PD"
    ∷ fs 0xab "VFMSUB213SS" "VFMSUB213SD"
    ∷ fp 0xac "VFNMADD213PS" "VFNMADD213PD"
    ∷ fs 0xad "VFNMADD213SS" "VFNMADD213SD"
    ∷ fp 0xae "VFNMSUB213PS" "VFNMSUB213PD"
    ∷ fs 0xaf "VFNMSUB213SS" "VFNMSUB213SD"
    ∷ fp 0xb6 "VFMADDSUB231PS" "VFMADDSUB231PD"
    ∷ fp 0xb7 "VFMSUBADD231PS" "VFMSUBADD231PD"
    ∷ fp 0xb8 "VFMADD231PS" "VFMADD231PD"
    ∷ fs 0xb9 "VFMADD231SS" "VFMADD231SD"
    ∷ fp 0xba "VFMSUB231PS" "VFMSUB231PD"
    ∷ fs 0xbb "VFMSUB231SS" "VFMSUB231SD"
    ∷ fp 0xbc "VFNMADD231PS" "VFNMADD231PD"
    ∷ fs 0xbd "VFNMADD231SS" "VFNMADD231SD"
    ∷ fp 0xbe "VFNMSUB231PS" "VFNMSUB231PD"
    ∷ fs 0xbf "VFNMSUB231SS" "VFNMSUB231SD"
    ∷ []
