-- ===== src/Common/Strings.antt =====
-- Text as the list of its characters' codes, and numbers as text: what std::string and std::format do.
use Prim.Native.Nat.{ℕ, zero, suc, ◌+◌, ◌-◌, ◌/◌, ◌%◌}
use mathlib.Core.List.{List, [], ◌∷◌, ◌++◌}
use voidwalk.Common.Tests.{ltb, if◌then◌else◌}
use voidwalk.Common.Lists.{length}

abbrev pub Text : Type 0
Text = List ℕ

-- The digit below 16, in lower case and in upper case
unfoldable pub digit : ℕ → ℕ
digit d = if ltb d 10 then b'0' + d else b'a' + (d - 10)

unfoldable pub upper_digit : ℕ → ℕ
upper_digit d = if ltb d 10 then b'0' + d else b'A' + (d - 10)

-- The digits of a number in a base, without leading zeros but at least one. A number below
-- base ^ (rounds + 1) needs no more than that many rounds.
unfoldable pub digits_in : (ℕ → ℕ) → ℕ → ℕ → ℕ → Text
digits_in show base zero n = show (n % base) ∷ []
digits_in show base (suc rounds) n =
    let rest = digits_in show base rounds (n / base) in
    if ltb n base then show n ∷ [] else rest ++ show (n % base) ∷ []

-- A 64-bit number has at most 16 hexadecimal and 20 decimal digits.
unfoldable pub hex : ℕ → Text
unfolding digits_in digit
hex n = digits_in digit 16 15 n

unfoldable pub upper_hex : ℕ → Text
unfolding digits_in upper_digit
upper_hex n = digits_in upper_digit 16 15 n

unfoldable pub decimal : ℕ → Text
unfolding digits_in digit
decimal n = digits_in digit 10 19 n

-- As many copies of a character
unfoldable pub repeated : ℕ → ℕ → Text
repeated zero c = []
repeated (suc n) c = c ∷ repeated n c

-- Filled on the left up to a width
unfoldable pub pad_left : ℕ → ℕ → Text → Text
unfolding repeated
pad_left width c text = repeated (width - length text) c ++ text

-- `{:02x}`
unfoldable pub hex_byte : ℕ → Text
unfolding digit
hex_byte b = digit (b / 16) ∷ digit (b % 16) ∷ []

unfoldable pub upper_hex_byte : ℕ → Text
unfolding upper_digit
upper_hex_byte b = upper_digit (b / 16) ∷ upper_digit (b % 16) ∷ []
