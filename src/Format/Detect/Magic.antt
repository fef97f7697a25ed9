-- ===== src/Format/Detect/Magic.antt =====
-- What src/disassembler/format/detect.hpp recognises, and what a loaded binary guarantees.
use voidwalk.Common.{
  ℕ, ◌%◌, add32, mod16, ltb, ◌<◌, ◌==◌, leb, if◌then◌else◌, ◌≡◌, ◌↔◌, refl, Bool, true, false, some,
  String, Result, ok, err, >>=-eq-ok, arith, ◌∙◌, ap, Bool-cases, inl, inr, Option-cases,
  Result-cases, ◌≢◌,
}
use voidwalk.AddressSpace.{
  AddressSpace, size, read_u8, read_u16, read_u32, read_u64, invalid_offset, join_byte,
}
use mathlib.Core.Path.{subst}
use voidwalk.Format.Section.{Sections}
use voidwalk.AddressSpace.Reads.{read_outside}
use voidwalk.Arch.{Arch, unknown, x86, x86_64, arm32, aarch64, Decoder, make_decoder, is_64bit}
use voidwalk.Format.Elf.{ElfBinary, Found, elf_disassembler, elf_headers, arch_of_elf_machine}
use voidwalk.Format.Pe.{PeBinary, pe_disassembler, pe_headers, arch_of_pe_machine}
use voidwalk.Format.Detect.{
  FileType, elf, pe, neither, determine_filetype, has_elf_magic, has_dos_magic, has_pe_signature,
  byte_is, and_then, Binary, elf_binary, pe_binary, binary_arch, select_disassembler,
  make_disassembler,
}

-- The byte of the file at an offset.
abbrev pub HasByte : AddressSpace → ℕ → ℕ → Type 0
HasByte space i b = (i < space.file_size) × (space.mapped_data i ≡ some b)

byte_is_at :
    (space : AddressSpace) (i b c : ℕ) → HasByte space i b → byte_is space i c ≡ ok (b == c)
unfolding byte_is read_u8 join_byte
byte_is_at space i b c (h, e) = ground arith

byte_is-true : (space : AddressSpace) (i c : ℕ) → byte_is space i c ≡ ok true → HasByte space i c
unfolding byte_is read_u8 join_byte
byte_is-true space i c e = elim (Option-cases (space.mapped_data i)) [
  | inl n ↦ (ground arith, ground arith)
  | inr (b, s) ↦ (ground arith, ground arith)
]

and_then-true : (m n : Result Bool) → and_then m n ≡ ok true → (m ≡ ok true) × (n ≡ ok true)
and_then-true (ok true) n e = (refl, e)
and_then-true (ok false) n e = (cc, cc)
and_then-true (err x) n e = (cc, cc)

-- The file begins with the ELF magic.
abbrev pub IsElf : AddressSpace → Type 0
IsElf space =
    HasByte space 0 0x7f × HasByte space 1 0x45 × HasByte space 2 0x4c × HasByte space 3 0x46

has_elf_magic_of : (space : AddressSpace) → IsElf space → has_elf_magic space ≡ ok true
unfolding has_elf_magic
has_elf_magic_of space (b₀, b₁, b₂, b₃) =
    rw
      (
        byte_is_at space 0 _ 0x7f b₀,
        byte_is_at space 1 _ 0x45 b₁,
        byte_is_at space 2 _ 0x4c b₂,
        byte_is_at space 3 _ 0x46 b₃,
      )
      (ground arith)

IsElf-of : (space : AddressSpace) → has_elf_magic space ≡ ok true → IsElf space
unfolding has_elf_magic
IsElf-of space e =
    let third = and_then (byte_is space 2 0x4c) (byte_is space 3 0x46) in
    let second = and_then (byte_is space 1 0x45) third in
    let first = and_then (byte_is space 0 0x7f) second in
    let (_, e₀) = and_then-true (ok (leb 4 (size space))) first e in
    let (b₀, e₁) = and_then-true (byte_is space 0 0x7f) second e₀ in
    let (b₁, e₂) = and_then-true (byte_is space 1 0x45) third e₁ in
    let (b₂, b₃) = and_then-true (byte_is space 2 0x4c) (byte_is space 3 0x46) e₂ in
    (
      byte_is-true space 0 0x7f b₀,
      byte_is-true space 1 0x45 b₁,
      byte_is-true space 2 0x4c b₂,
      byte_is-true space 3 0x46 b₃,
    )

-- The answer without the ELF magic.
ne_elf : (b : Bool) → ok (if b then pe else neither) ≢ ok elf
ne_elf true e = cc
ne_elf false e = cc

elf_flag :
    (space : AddressSpace) → determine_filetype space ≡ ok elf → has_elf_magic space ≡ ok true
unfolding determine_filetype
elf_flag space e = elim (Result-cases (has_elf_magic space)) [
  | inl (true, r) ↦ r
  | inl (false, r) ↦
      let (is_dos, _, k) = >>=-eq-ok (has_dos_magic space) _ (rw r at e) in
      let (is_pe, _, k') = >>=-eq-ok (if is_dos then has_pe_signature space else ok false) _ k in
      absurd (ne_elf is_pe k')
  | inr (x, r) ↦ cc (rw r at e)
]

-- A file is taken for ELF exactly if its first four bytes are 7F 45 4C 46.
pub determine_filetype-elf :
    (space : AddressSpace) → (determine_filetype space ≡ ok elf) ↔ IsElf space
unfolding determine_filetype
determine_filetype-elf space = (to_magic, from_magic)
  where
    to_magic : determine_filetype space ≡ ok elf → IsElf space
    to_magic e = IsElf-of space (elf_flag space e)

    from_magic : IsElf space → determine_filetype space ≡ ok elf
    from_magic h = rw (has_elf_magic_of space h) refl

-- A file that begins with MZ and is too short to hold the PE offset is no file type at all: the
-- detection throws.
pub determine_filetype-short_dos :
    (space : AddressSpace)
    → HasByte space 0 0x4d
    → HasByte space 1 0x5a
    → space.file_size < 0x40
    → determine_filetype space ≡ err invalid_offset
unfolding determine_filetype has_elf_magic has_dos_magic has_pe_signature read_u32
determine_filetype-short_dos space b₀ b₁ short =
    rw
      (
        byte_is_at space 0 _ 0x7f b₀,
        byte_is_at space 0 _ 0x4d b₀,
        byte_is_at space 1 _ 0x5a b₁,
        read_outside space 4 0x3c (omega arith),
      )
      (ground arith)

known_arch : (arch : Arch) → arch ≢ unknown → (d : Decoder) × (make_decoder arch ≡ some d)
unfolding make_decoder
known_arch unknown h = absurd (h refl)
known_arch x86 h = (_, refl)
known_arch x86_64 h = (_, refl)
known_arch arm32 h = (_, refl)
known_arch aarch64 h = (_, refl)

elf_headers-known :
    (space : AddressSpace) (a : Arch) (f : Found) → elf_headers space a ≡ ok f → a ≢ unknown
unfolding elf_headers
elf_headers-known space unknown f e u = let (_, _, k) = >>=-eq-ok (read_u16 space 0x12) _ e in cc
elf_headers-known space _ f e u = cc

pe_headers-known :
    (space : AddressSpace) (header : ℕ) (a : Arch) (p : ℕ × Sections)
    → pe_headers space header a ≡ ok p
    → a ≢ unknown
unfolding pe_headers
pe_headers-known space header unknown p e u = cc
pe_headers-known space header _ p e u = cc

elf-arch : (space : AddressSpace) (b : ElfBinary) → elf_disassembler space ≡ ok b → b.arch ≢ unknown
unfolding elf_disassembler
elf-arch space b e u = elim (Bool-cases (ltb (size space) 52)) [
  | inl y ↦ cc (rw y at e)
  | inr n ↦
      let (m, _, k) = >>=-eq-ok (read_u16 space 0x12) _ (rw n at e) in
      let a = arch_of_elf_machine m in
      let (f, h, k') = >>=-eq-ok (elf_headers space a) _ k in
      let (en, _, k'') =
        >>=-eq-ok (if is_64bit a then read_u64 space 0x18 else read_u32 space 0x18) _ k' in
      elf_headers-known space a f h (ap arch_of k'' ∙ u)
]
  where
    arch_of : Result ElfBinary → Arch
    arch_of (ok x) = x.arch
    arch_of (err x) = unknown

pe-arch : (space : AddressSpace) (b : PeBinary) → pe_disassembler space ≡ ok b → b.arch ≢ unknown
unfolding pe_disassembler
pe-arch space b e u =
    let (h, _, k) = >>=-eq-ok (read_u32 space 0x3c) _ e in
    let (m, _, k') = >>=-eq-ok (read_u32 space (add32 h 4)) _ k in
    let a = arch_of_pe_machine (m % mod16) in
    let (p, r, k'') = >>=-eq-ok (pe_headers space h a) _ k' in
    let (en, _, k₃) = >>=-eq-ok (read_u32 space (add32 (add32 h 24) 16)) _ k'' in
    pe_headers-known space h a p r (ap arch_of k₃ ∙ u)
  where
    arch_of : Result PeBinary → Arch
    arch_of (ok x) = x.arch
    arch_of (err x) = unknown

select-arch :
    (space : AddressSpace) (k : FileType) (b : Binary)
    → select_disassembler space k ≡ ok b
    → binary_arch b ≢ unknown
unfolding select_disassembler binary_arch
select-arch space elf b e =
    let (x, r, k) = >>=-eq-ok (elf_disassembler space) _ e in
    subst (λ y. binary_arch y ≢ unknown) (binary_eq (elf_binary x) b k) (elf-arch space x r)
  where
    binary_eq : (x y : Binary) → ok x ≡ ok y → x ≡ y
    binary_eq x y q = cc
select-arch space pe b e =
    let (x, r, k) = >>=-eq-ok (pe_disassembler space) _ e in
    subst (λ y. binary_arch y ≢ unknown) (binary_eq (pe_binary x) b k) (pe-arch space x r)
  where
    binary_eq : (x y : Binary) → ok x ≡ ok y → x ≡ y
    binary_eq x y q = cc
select-arch space neither b e = λ u. cc

-- A binary that was loaded has a decoder, so the sweep never meets the null decoder that
-- `Disassembler::decodeLine` guards against.
pub make_disassembler-decoder :
    (space : AddressSpace) (message : String) (b : Binary)
    → make_disassembler space ≡ ok (message, b)
    → (d : Decoder) × (make_decoder (binary_arch b) ≡ some d)
unfolding make_disassembler
make_disassembler-decoder space message b e =
    let (k, _, r) = >>=-eq-ok (determine_filetype space) _ e in
    let (x, q, r') = >>=-eq-ok (select_disassembler space k) _ r in
    known_arch (binary_arch b)
      (subst (λ y. binary_arch y ≢ unknown) (snd_eq x r') (select-arch space k x q))
  where
    second : Result (String × Binary) → Binary
    second (ok p) = p.1
    second (err _) = b

    snd_eq :
        {m : String} (x : Binary)
        → ◌≡◌ {A = Result (String × Binary)} (ok (m, x)) (ok (message, b))
        → x ≡ b
    snd_eq x q = ap second q
