-- ===== src/X86/TwoByte/ThreeDNow.antt =====
-- 3DNow!: src/arch/x86_64/x86_64_tables.cpp.
use voidwalk.Common.{[], ◌∷◌, List}
use voidwalk.X86.Types.{Write}
use voidwalk.X86.Rows.{dn}

-- The rows, by the byte behind the operands.
unfoldable pub three_d_now_rows : List Write
three_d_now_rows =
    dn 0x0c "PI2FW"
    ∷ dn 0x0d "PI2FD"
    ∷ dn 0x1c "PF2IW"
    ∷ dn 0x1d "PF2ID"
    ∷ dn 0x8a "PFNACC"
    ∷ dn 0x8e "PFPNACC"
    ∷ dn 0x90 "PFCMPGE"
    ∷ dn 0x94 "PFMIN"
    ∷ dn 0x96 "PFRCP"
    ∷ dn 0x97 "PFRSQRT"
    ∷ dn 0x9a "PFSUB"
    ∷ dn 0x9e "PFADD"
    ∷ dn 0xa0 "PFCMPGT"
    ∷ dn 0xa4 "PFMAX"
    ∷ dn 0xa6 "PFRCPIT1"
    ∷ dn 0xa7 "PFRSQIT1"
    ∷ dn 0xaa "PFSUBR"
    ∷ dn 0xae "PFACC"
    ∷ dn 0xb0 "PFCMPEQ"
    ∷ dn 0xb4 "PFMUL"
    ∷ dn 0xb6 "PFRCPIT2"
    ∷ dn 0xb7 "PMULHRW"
    ∷ dn 0xbb "PSWAPD"
    ∷ dn 0xbf "PAVGUSB"
    ∷ []
