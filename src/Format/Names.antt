-- ===== src/Format/Names.antt =====
-- The loop of src/disassembler/format/elf/elf_sections.hpp that reads a section's name.
use voidwalk.Common.{
  ℕ, zero, suc, ◌+◌, ◌<◌, ◌≡◌, ◌≢◌, ◌==◌, if◌then◌else◌, add64, mod64, List, [], ◌∷◌, Result, ok,
  err, out_of_fuel, ◌>>=◌, arith, Result-cases, inl, inr,
}
use voidwalk.AddressSpace.{AddressSpace, read_u8}

-- `for (uint64_t i = 0; ; ++i)` from the position `base`, up to the first NUL.
unfoldable pub read_name : ℕ → AddressSpace → ℕ → ℕ → Result (List ℕ)
read_name zero space base i = err out_of_fuel
read_name (suc fuel) space base i = do
  name_char ← read_u8 space (add64 base i)
  let rest = read_name fuel space base (add64 i 1)
  if name_char == 0 then ok [] else (rest >>= λ cs. ok (name_char ∷ cs))

-- Each round reads one byte further on, and a read past the end of the file throws.
abbrev pub name_fuel : AddressSpace → ℕ
name_fuel space = suc space.file_size

read_u8-inside :
    (space : AddressSpace) (offset : ℕ) {b : ℕ}
    → read_u8 space offset ≡ ok b
    → offset < space.file_size
unfolding read_u8
read_u8-inside space offset e = ground arith

read_u8-ne-fuel : (space : AddressSpace) (offset : ℕ) → read_u8 space offset ≢ err out_of_fuel
unfolding read_u8
read_u8-ne-fuel space offset e = ground arith

next_position :
    (base i n : ℕ) → n < mod64 → add64 base i < n → add64 base (add64 i 1) ≡ add64 base i + 1
next_position base i n h l = omega arith

read_name-ne-fuel :
    (fuel : ℕ) (space : AddressSpace) (base i : ℕ)
    → space.file_size < mod64
    → 0 < fuel
    → space.file_size < add64 base i + fuel
    → read_name fuel space base i ≢ err out_of_fuel
unfolding read_name
read_name-ne-fuel zero space base i h f l = absurd (omega arith)
read_name-ne-fuel (suc fuel) space base i h f l =
    elim (Result-cases (read_u8 space (add64 base i))) [
      | inr (e, r) ↦ λ q. read_u8-ne-fuel space (add64 base i) (cc)
      | inl (b, r) ↦
          let inside = read_u8-inside space (add64 base i) r in
          let step = next_position base i space.file_size h inside in
          let rest : read_name fuel space base (add64 i 1) ≢ err out_of_fuel =
            read_name-ne-fuel fuel space base (add64 i 1) h (omega arith) (omega (arith, step)) in
          rw r (ground arith)
    ]

-- The loop over a name ends on every file, whatever its headers say.
pub read_name-total :
    (space : AddressSpace) (base : ℕ)
    → space.file_size < mod64
    → read_name (name_fuel space) space base 0 ≢ err out_of_fuel
read_name-total space base h = read_name-ne-fuel _ space base 0 h (omega arith) (omega arith)
