-- ===== src/X86/Registers.antt =====
-- The names of the registers: registerOf and segmentOf of src/arch/x86_64/x86_64_mnemonic.hpp.
use voidwalk.Common.{
  ℕ, zero, suc, ◌%◌, ◌==◌, ltb, if◌then◌else◌, Bool, not, ◌&&◌, ◌||◌, String, List, [], ◌∷◌,
}

abbrev pub names8 : List String
names8 = "AL" ∷ "CL" ∷ "DL" ∷ "BL" ∷ "AH" ∷ "CH" ∷ "DH" ∷ "BH" ∷ []

abbrev pub names8_rex : List String
names8_rex =
    "AL" ∷ "CL" ∷ "DL" ∷ "BL" ∷ "SPL" ∷ "BPL" ∷ "SIL" ∷ "DIL" ∷ "R8B" ∷ "R9B" ∷ "R10B" ∷ "R11B"
    ∷ "R12B" ∷ "R13B" ∷ "R14B" ∷ "R15B" ∷ []

abbrev pub names16 : List String
names16 =
    "AX" ∷ "CX" ∷ "DX" ∷ "BX" ∷ "SP" ∷ "BP" ∷ "SI" ∷ "DI" ∷ "R8W" ∷ "R9W" ∷ "R10W" ∷ "R11W" ∷ "R12W"
    ∷ "R13W" ∷ "R14W" ∷ "R15W" ∷ []

abbrev pub names32 : List String
names32 =
    "EAX" ∷ "ECX" ∷ "EDX" ∷ "EBX" ∷ "ESP" ∷ "EBP" ∷ "ESI" ∷ "EDI" ∷ "R8D" ∷ "R9D" ∷ "R10D" ∷ "R11D"
    ∷ "R12D" ∷ "R13D" ∷ "R14D" ∷ "R15D" ∷ []

abbrev pub names64 : List String
names64 =
    "RAX" ∷ "RCX" ∷ "RDX" ∷ "RBX" ∷ "RSP" ∷ "RBP" ∷ "RSI" ∷ "RDI" ∷ "R8" ∷ "R9" ∷ "R10" ∷ "R11"
    ∷ "R12" ∷ "R13" ∷ "R14" ∷ "R15" ∷ []

-- Past the end of an array the source reads nothing that is defined; the guards keep it inside.
abbrev pub name_at : List String → ℕ → String
name_at [] i = ""
name_at (name ∷ names) zero = name
name_at (name ∷ names) (suc i) = name_at names i

unfoldable pub register_of : ℕ → ℕ → Bool → String
register_of number bits has_rex =
    if ltb 15 number || (bits == 8) && not has_rex && ltb 7 number
    then "(bad)"
    else if bits == 8
    then name_at (if has_rex then names8_rex else names8) number
    else if bits == 16
    then name_at names16 number
    else if bits == 64
    then name_at names64 number
    else name_at names32 number

unfoldable pub segment_of : ℕ → String
segment_of number =
    name_at ("ES" ∷ "CS" ∷ "SS" ∷ "DS" ∷ "FS" ∷ "GS" ∷ "(bad)" ∷ "(bad)" ∷ []) (number % 8)
