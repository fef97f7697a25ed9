-- ===== src/X86/Render/MachineCode.antt =====
-- The machine code column of a row gives back the bytes: src/arch/x86_64/x86_64_instruction.hpp.
use voidwalk.Common.{
  ℕ, ◌+◌, ◌-◌, ◌*◌, ◌/◌, ◌%◌, ◌<◌, ◌==◌, leb, if◌then◌else◌, ◌&&◌, List, [], ◌∷◌, Option, none,
  some, ◌≡◌, refl, ap, Text, digit, hex_byte, All, arith,
}
use voidwalk.X86.Render.{machine_code_text}

-- The value of a lower-case hexadecimal digit
unfoldable pub digit_value : ℕ → Option ℕ
digit_value c =
    if leb b'0' c && leb c b'9'
    then some (c - b'0')
    else if leb b'a' c && leb c b'f'
    then some (c - b'a' + 10)
    else none

unfoldable byte_with : Option ℕ → Option ℕ → Option (List ℕ) → Option (List ℕ)
byte_with (some hi) (some lo) (some bytes) = some ((16 * hi + lo) ∷ bytes)
byte_with _ _ _ = none

-- The bytes that are written as two digits and a space each
unfoldable pub parse_bytes : Text → Option (List ℕ)
unfolding digit_value byte_with
parse_bytes [] = some []
parse_bytes (hi ∷ lo ∷ space ∷ text) =
    let rest = parse_bytes text in
    if space == 32 then byte_with (digit_value hi) (digit_value lo) rest else none
parse_bytes _ = none

pub digit_value-digit : (d : ℕ) → d < 16 → digit_value (digit d) ≡ some d
unfolding digit_value digit
digit_value-digit d h = ground arith

halves : (b : ℕ) → 16 * (b / 16) + b % 16 ≡ b
halves b = omega arith

pub parse_bytes-machine_code_text :
    (bytes : List ℕ) → All (λ b. b < 256) bytes → parse_bytes (machine_code_text bytes) ≡ some bytes
unfolding parse_bytes machine_code_text hex_byte byte_with
parse_bytes-machine_code_text [] h = refl
parse_bytes-machine_code_text (b ∷ bytes) (h, hs) = rw (digit_value-digit (b / 16) (omega arith)) (
    rw (digit_value-digit (b % 16) (omega arith))
      (rw (parse_bytes-machine_code_text bytes hs) (ap (λ n. some (n ∷ bytes)) (halves b))))
