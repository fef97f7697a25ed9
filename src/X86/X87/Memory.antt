-- ===== src/X86/X87/Memory.antt =====
-- The x87 memory forms of src/arch/x86_64/x86_64_tables.cpp.
use voidwalk.Common.{[], ◌∷◌, List}
use voidwalk.X86.Types.{Write}
use voidwalk.X86.Rows.{fm}

-- Indexed by (opcode - D8) * 8 + reg.
unfoldable pub x87_memory_rows : List Write
x87_memory_rows =
    fm 0 "FADD"
    ∷ fm 1 "FMUL"
    ∷ fm 2 "FCOM"
    ∷ fm 3 "FCOMP"
    ∷ fm 4 "FSUB"
    ∷ fm 5 "FSUBR"
    ∷ fm 6 "FDIV"
    ∷ fm 7 "FDIVR"
    ∷ fm 8 "FLD"
    ∷ fm 10 "FST"
    ∷ fm 11 "FSTP"
    ∷ fm 12 "FLDENV"
    ∷ fm 13 "FLDCW"
    ∷ fm 14 "FNSTENV"
    ∷ fm 15 "FNSTCW"
    ∷ fm 16 "FIADD"
    ∷ fm 17 "FIMUL"
    ∷ fm 18 "FICOM"
    ∷ fm 19 "FICOMP"
    ∷ fm 20 "FISUB"
    ∷ fm 21 "FISUBR"
    ∷ fm 22 "FIDIV"
    ∷ fm 23 "FIDIVR"
    ∷ fm 24 "FILD"
    ∷ fm 25 "FISTTP"
    ∷ fm 26 "FIST"
    ∷ fm 27 "FISTP"
    ∷ fm 29 "FLD"
    ∷ fm 31 "FSTP"
    ∷ fm 32 "FADD"
    ∷ fm 33 "FMUL"
    ∷ fm 34 "FCOM"
    ∷ fm 35 "FCOMP"
    ∷ fm 36 "FSUB"
    ∷ fm 37 "FSUBR"
    ∷ fm 38 "FDIV"
    ∷ fm 39 "FDIVR"
    ∷ fm 40 "FLD"
    ∷ fm 41 "FISTTP"
    ∷ fm 42 "FST"
    ∷ fm 43 "FSTP"
    ∷ fm 44 "FRSTOR"
    ∷ fm 46 "FNSAVE"
    ∷ fm 47 "FNSTSW"
    ∷ fm 48 "FIADD"
    ∷ fm 49 "FIMUL"
    ∷ fm 50 "FICOM"
    ∷ fm 51 "FICOMP"
    ∷ fm 52 "FISUB"
    ∷ fm 53 "FISUBR"
    ∷ fm 54 "FIDIV"
    ∷ fm 55 "FIDIVR"
    ∷ fm 56 "FILD"
    ∷ fm 57 "FISTTP"
    ∷ fm 58 "FIST"
    ∷ fm 59 "FISTP"
    ∷ fm 60 "FBLD"
    ∷ fm 61 "FILD"
    ∷ fm 62 "FBSTP"
    ∷ fm 63 "FISTP"
    ∷ []
