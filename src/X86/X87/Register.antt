-- ===== src/X86/X87/Register.antt =====
-- The register rows of the x87 escape opcodes, one list for each escape: buildX87Reg of
-- src/arch/x86_64/x86_64_tables.cpp.
use voidwalk.Common.{List, [], ◌∷◌, ◌++◌, ◌+◌, ◌*◌, true}
use voidwalk.X86.Types.{Write, not_group}
use voidwalk.X86.Operands.{op_none}
use voidwalk.X86.Rows.{row, assign, row1, row2, one, st, st_i}

unfoldable registers_d8 : List Write
registers_d8 =
    row2 0 0 "FADD" (st "ST") st_i
    ++ row2 0 1 "FMUL" (st "ST") st_i
    ++ row1 0 2 "FCOM" st_i
    ++ row1 0 3 "FCOMP" st_i
    ++ row2 0 4 "FSUB" (st "ST") st_i
    ++ row2 0 5 "FSUBR" (st "ST") st_i
    ++ row2 0 6 "FDIV" (st "ST") st_i
    ++ row2 0 7 "FDIVR" (st "ST") st_i

unfoldable registers_d9 : List Write
registers_d9 =
    row1 1 0 "FLD" st_i
    ++ row1 1 1 "FXCH" st_i
    ++ one 1 2 0 "FNOP"
    ++ one 1 4 0 "FCHS"
    ++ one 1 4 1 "FABS"
    ++ one 1 4 4 "FTST"
    ++ one 1 4 5 "FXAM"
    ++ one 1 5 0 "FLD1"
    ++ one 1 5 1 "FLDL2T"
    ++ one 1 5 2 "FLDL2E"
    ++ one 1 5 3 "FLDPI"
    ++ one 1 5 4 "FLDLG2"
    ++ one 1 5 5 "FLDLN2"
    ++ one 1 5 6 "FLDZ"
    ++ one 1 6 0 "F2XM1"
    ++ one 1 6 1 "FYL2X"
    ++ one 1 6 2 "FPTAN"
    ++ one 1 6 3 "FPATAN"
    ++ one 1 6 4 "FXTRACT"
    ++ one 1 6 5 "FPREM1"
    ++ one 1 6 6 "FDECSTP"
    ++ one 1 6 7 "FINCSTP"
    ++ one 1 7 0 "FPREM"
    ++ one 1 7 1 "FYL2XP1"
    ++ one 1 7 2 "FSQRT"
    ++ one 1 7 3 "FSINCOS"
    ++ one 1 7 4 "FRNDINT"
    ++ one 1 7 5 "FSCALE"
    ++ one 1 7 6 "FSIN"
    ++ one 1 7 7 "FCOS"

unfoldable registers_da : List Write
registers_da =
    row2 2 0 "FCMOVB" (st "ST") st_i
    ++ row2 2 1 "FCMOVE" (st "ST") st_i
    ++ row2 2 2 "FCMOVBE" (st "ST") st_i
    ++ row2 2 3 "FCMOVU" (st "ST") st_i
    ++ one 2 5 1 "FUCOMPP"

unfoldable registers_db : List Write
registers_db =
    row2 3 0 "FCMOVNB" (st "ST") st_i
    ++ row2 3 1 "FCMOVNE" (st "ST") st_i
    ++ row2 3 2 "FCMOVNBE" (st "ST") st_i
    ++ row2 3 3 "FCMOVNU" (st "ST") st_i
    ++ one 3 4 2 "FNCLEX"
    ++ one 3 4 3 "FNINIT"
    ++ row2 3 5 "FUCOMI" (st "ST") st_i
    ++ row2 3 6 "FCOMI" (st "ST") st_i

unfoldable registers_dc : List Write
registers_dc =
    row2 4 0 "FADD" st_i (st "ST")
    ++ row2 4 1 "FMUL" st_i (st "ST")
    ++ row2 4 4 "FSUBR" st_i (st "ST")
    ++ row2 4 5 "FSUB" st_i (st "ST")
    ++ row2 4 6 "FDIVR" st_i (st "ST")
    ++ row2 4 7 "FDIV" st_i (st "ST")

unfoldable registers_dd : List Write
registers_dd =
    row1 5 0 "FFREE" st_i
    ++ row1 5 2 "FST" st_i
    ++ row1 5 3 "FSTP" st_i
    ++ row1 5 4 "FUCOM" st_i
    ++ row1 5 5 "FUCOMP" st_i

unfoldable registers_de : List Write
registers_de =
    row2 6 0 "FADDP" st_i (st "ST")
    ++ row2 6 1 "FMULP" st_i (st "ST")
    ++ one 6 3 1 "FCOMPP"
    ++ row2 6 4 "FSUBRP" st_i (st "ST")
    ++ row2 6 5 "FSUBP" st_i (st "ST")
    ++ row2 6 6 "FDIVRP" st_i (st "ST")
    ++ row2 6 7 "FDIVP" st_i (st "ST")

unfoldable registers_df : List Write
registers_df =
    (assign (7 * 64 + 4 * 8) (row "FNSTSW" "" true (st "AX" 0) op_none op_none not_group) ∷ [])
    ++ row2 7 5 "FUCOMIP" (st "ST") st_i
    ++ row2 7 6 "FCOMIP" (st "ST") st_i

unfoldable pub x87_register_rows : List Write
unfolding registers_d8 registers_d9 registers_da registers_db registers_dc registers_dd registers_de
    registers_df
x87_register_rows =
    registers_d8 ++ registers_d9 ++ registers_da ++ registers_db ++ registers_dc ++ registers_dd
    ++ registers_de ++ registers_df
