-- ===== src/Cli/HexDump.antt =====
-- The hex dump of src/cli/hex_reader.hpp.
pub mod Complete
use voidwalk.Common.{
  ℕ, zero, suc, ◌+◌, ◌-◌, ◌*◌, ◌/◌, ◌%◌, ◌≤◌, ◌<◌, ltb, leb, if◌then◌else◌, Bool, true, false, ◌&&◌,
  Bool-cases, inl, inr, List, [], ◌∷◌, ◌++◌, length, length-append, All, Option, none, some, Error,
  Result, ok, err, ◌>>=◌, >>=-eq-ok, ◌≡◌, refl, sym, ap, ◌∙◌, arith, Text, codes, hex, hex_byte,
  digits_in, digit, repeated, pad_left,
}
use Prim.{Unit, tt}
use voidwalk.AddressSpace.{AddressSpace, read_u8, size}

-- The character of a byte in the right-hand column
unfoldable pub ascii_of : ℕ → ℕ
ascii_of b = if leb 0x20 b && ltb b 0x7f then b else b'.'

-- The inner loop from the byte `at` on: the cells and the right-hand column
unfoldable pub cells : AddressSpace → ℕ → ℕ → Result (Text × Text)
unfolding size read_u8 hex_byte ascii_of
cells space at zero = ok ([], [])
cells space at (suc rounds) =
    let rest = cells space (suc at) rounds in
    if ltb at (size space)
    then (do
      b ← read_u8 space at
      (hexes, ascii) ← rest
      ok (hex_byte b ++ codes " " ++ hexes, ascii_of b ∷ ascii))
    else (do (hexes, ascii) ← rest; ok (codes "   " ++ hexes, 32 ∷ ascii))

unfoldable pub dump_line : AddressSpace → ℕ → Result Text
unfolding hex pad_left cells
dump_line space off = do
  (hexes, ascii) ← cells space off 16
  ok (
      pad_left 8 b'0' (hex off)
      ++ codes "  "
      ++ hexes
      ++ codes " |"
      ++ ascii
      ++ codes "|"
      ++ 10 ∷ [])

-- How the dump ends: what was written, and the exception if one left it
abbrev pub Dump : Type 0
Dump = List Text × Option Error

abbrev pub written : Result Text → Dump → Dump
written (err e) rest = ([], some e)
written (ok line) (lines, end) = (line ∷ lines, end)

-- The loop over the offsets; a round for every sixteen bytes
unfoldable pub dump_from : AddressSpace → ℕ → ℕ → Dump
unfolding size dump_line
dump_from space zero off = ([], none)
dump_from space (suc rounds) off =
    let rest = dump_from space rounds (off + 16) in
    if ltb off (size space) then written (dump_line space off) rest else ([], none)

unfoldable pub output_hex : AddressSpace → Dump
unfolding dump_from size
output_hex space = dump_from space (size space) 0

-- The buffer `line`
abbrev pub line_capacity : ℕ
line_capacity = 96

length-digits_in :
    (show : ℕ → ℕ) (base rounds n : ℕ) → length (digits_in show base rounds n) ≤ suc rounds
unfolding digits_in
length-digits_in show base zero n = omega arith
length-digits_in show base (suc rounds) n = elim (Bool-cases (ltb n base)) [
  | inl e ↦ rw e (omega arith)
  | inr e ↦
      let before = length-digits_in show base rounds (n / base) in
      rw e (
        rw (length-append (digits_in show base rounds (n / base)) (show (n % base) ∷ []))
          (omega (arith, before)))
]

length-repeated : (n c : ℕ) → length (repeated n c) ≡ n
unfolding repeated
length-repeated zero c = refl
length-repeated (suc n) c = ap suc (length-repeated n c)

length-offset : (off : ℕ) → length (pad_left 8 b'0' (hex off)) ≤ 16
unfolding pad_left hex
length-offset off =
    let digits = length-digits_in digit 16 15 off in
    let shown = digits_in digit 16 15 off in
    rw (length-append (repeated (8 - length shown) b'0') shown)
      (rw (length-repeated (8 - length shown) b'0') (omega (arith, digits)))

-- Three characters of the cells and one of the column for each byte, and for each that is missing
abbrev Sized : ℕ → Result (Text × Text) → Type 0
Sized n (ok (hexes, ascii)) = (length hexes ≡ 3 * n) × (length ascii ≡ n)
Sized n (err e) = Unit

Sized-byte :
    (n : ℕ) (r : Result ℕ) (rest : Result (Text × Text))
    → Sized n rest
    → Sized
        (suc n)
        (do b ← r; (hexes, ascii) ← rest; ok (hex_byte b ++ codes " " ++ hexes, ascii_of b ∷ ascii))
unfolding hex_byte
Sized-byte n (err e) rest h = tt
Sized-byte n (ok b) (err e) h = tt
Sized-byte n (ok b) (ok (hexes, ascii)) (h, k) = (omega (arith, h), ap suc k)

Sized-missing :
    (n : ℕ) (rest : Result (Text × Text))
    → Sized n rest
    → Sized (suc n) (do (hexes, ascii) ← rest; ok (codes "   " ++ hexes, 32 ∷ ascii))
Sized-missing n (err e) h = tt
Sized-missing n (ok (hexes, ascii)) (h, k) = (omega (arith, h), ap suc k)

Sized-cells : (space : AddressSpace) (rounds at : ℕ) → Sized rounds (cells space at rounds)
unfolding cells
Sized-cells space zero at = (refl, refl)
Sized-cells space (suc rounds) at = elim (Bool-cases (ltb at (size space))) [
  | inl e ↦ rw e (Sized-byte rounds (read_u8 space at) _ (Sized-cells space rounds (suc at)))
  | inr e ↦ rw e (Sized-missing rounds _ (Sized-cells space rounds (suc at)))
]

abbrev Fits : Result Text → Type 0
Fits (ok line) = length line ≤ line_capacity
Fits (err e) = Unit

line_length :
    (offset hexes ascii : Text)
    → length offset ≤ 16
    → length hexes ≡ 48
    → length ascii ≡ 16
    → length (offset ++ codes "  " ++ hexes ++ codes " |" ++ ascii ++ codes "|" ++ 10 ∷ []) ≤ 86
line_length offset hexes ascii o h a = simp length-append (omega (arith, o, h, a))

with_cells :
    (off : ℕ) (r : Result (Text × Text))
    → Sized 16 r
    → Fits (do
      (hexes, ascii) ← r
      ok (
          pad_left 8 b'0' (hex off)
          ++ codes "  "
          ++ hexes
          ++ codes " |"
          ++ ascii
          ++ codes "|"
          ++ 10 ∷ []))
with_cells off (err e) h = tt
with_cells off (ok (hexes, ascii)) (h, a) =
    let short = line_length (pad_left 8 b'0' (hex off)) hexes ascii (length-offset off) h a in
    omega (arith, short)

dump_line-Fits : (space : AddressSpace) (off : ℕ) → Fits (dump_line space off)
unfolding dump_line
dump_line-Fits space off = with_cells off (cells space off 16) (Sized-cells space 16 off)

written-Fits :
    (r : Result Text) (rest : Dump)
    → Fits r
    → All (λ line. length line ≤ line_capacity) rest.0
    → All (λ line. length line ≤ line_capacity) (written r rest).0
written-Fits (err e) rest h k = tt
written-Fits (ok line) (lines, end) h k = (h, k)

if_Fits :
    (b : Bool) (x y : Dump)
    → All (λ line. length line ≤ line_capacity) x.0
    → All (λ line. length line ≤ line_capacity) y.0
    → All (λ line. length line ≤ line_capacity) (if b then x else y).0
if_Fits true x y h k = h
if_Fits false x y h k = k

dump_from-Fits :
    (space : AddressSpace) (rounds off : ℕ)
    → All (λ line. length line ≤ line_capacity) (dump_from space rounds off).0
unfolding dump_from
dump_from-Fits space zero off = tt
dump_from-Fits space (suc rounds) off =
    if_Fits (ltb off (size space)) _ _
      (written-Fits (dump_line space off) (dump_from space rounds (off + 16))
        (dump_line-Fits space off) (dump_from-Fits space rounds (off + 16)))
      tt

-- Whatever the file, every line of the dump fits in the 96 characters of the buffer that it is built
-- in, 64-bit offsets included.
pub output_hex-Fits :
    (space : AddressSpace) → All (λ line. length line ≤ line_capacity) (output_hex space).0
unfolding output_hex
output_hex-Fits space = dump_from-Fits space (size space) 0
