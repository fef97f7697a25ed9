-- ===== src/Format/Elf/Entries.antt =====
-- The fields of an ELF file by their places in it, as src/disassembler/format/elf/elf_sections.hpp
-- has to read them.
use voidwalk.Common.{
  ℕ, zero, suc, ◌==◌, ◌≡◌, Bool-cases, inl, inr, true, false, List, [], ◌∷◌, Result, ok, >>=-eq-ok,
  add64, mul64, arith,
}
use mathlib.Core.Path.{subst}
use voidwalk.AddressSpace.{AddressSpace, read_u8, read_u16, read_u32, read_u64}
use voidwalk.Format.Names.{read_name, name_fuel}
use voidwalk.Format.Elf.{Entry, TableInfo, read_table32, read_table64, entry32, entry64}
use voidwalk.Format.Elf.Collected.{read_entries}

-- The characters from a position on, up to the first NUL
pub data Spells (space : AddressSpace) (base : ℕ) : ℕ → List ℕ → Type 0 where
  ends : (i : ℕ) → read_u8 space (add64 base i) ≡ ok 0 → Spells space base i []
  letter :
      (i c : ℕ) (cs : List ℕ)
      → read_u8 space (add64 base i) ≡ ok c
      → (c == 0) ≡ false
      → Spells space base (add64 i 1) cs
      → Spells space base i (c ∷ cs)

-- The fields of the file header that locate the section header table
pub record IsTable32 (space : AddressSpace) (t : TableInfo) : Type 0 where
  pub table : read_u32 space 0x20 ≡ ok t.section_table_offset
  pub entry_size : read_u16 space 0x2e ≡ ok t.section_entry_size
  pub count : read_u16 space 0x30 ≡ ok t.section_count
  pub names_index : read_u16 space 0x32 ≡ ok t.names_section_index

pub record IsTable64 (space : AddressSpace) (t : TableInfo) : Type 0 where
  pub table : read_u64 space 0x28 ≡ ok t.section_table_offset
  pub entry_size : read_u16 space 0x3a ≡ ok t.section_entry_size
  pub count : read_u16 space 0x3c ≡ ok t.section_count
  pub names_index : read_u16 space 0x3e ≡ ok t.names_section_index

-- Where the section header of an index stands
abbrev pub header_at : TableInfo → ℕ → ℕ
header_at t index = add64 t.section_table_offset (mul64 t.section_entry_size index)

-- Where the header of the section that holds the names stands
abbrev pub names_header_at : TableInfo → ℕ
names_header_at t = add64 t.section_table_offset (mul64 t.names_section_index t.section_entry_size)

-- An entry of the table, `names` being where the names stand
pub record IsEntry32 (space : AddressSpace) (t : TableInfo) (names index : ℕ) (e : Entry)
    : Type 0 where
  pub name_offset : ℕ
  pub name_at : read_u32 space (header_at t index) ≡ ok name_offset
  pub name : Spells space (add64 names name_offset) 0 e.0
  pub vaddr : read_u32 space (add64 (header_at t index) 0x0c) ≡ ok e.1.vaddr
  pub offset : read_u32 space (add64 (header_at t index) 0x10) ≡ ok e.1.offset
  pub size : read_u32 space (add64 (header_at t index) 0x14) ≡ ok e.1.size

pub record IsEntry64 (space : AddressSpace) (t : TableInfo) (names index : ℕ) (e : Entry)
    : Type 0 where
  pub name_offset : ℕ
  pub name_at : read_u32 space (header_at t index) ≡ ok name_offset
  pub name : Spells space (add64 names name_offset) 0 e.0
  pub vaddr : read_u64 space (add64 (header_at t index) 0x10) ≡ ok e.1.vaddr
  pub offset : read_u64 space (add64 (header_at t index) 0x18) ≡ ok e.1.offset
  pub size : read_u64 space (add64 (header_at t index) 0x20) ≡ ok e.1.size

-- The entries from an index on, as many as there are to be
pub data Listed (P : ℕ → Entry → Type 0) : ℕ → ℕ → List Entry → Type 0 where
  done : (i : ℕ) → Listed P i 0 []
  next :
      (i left : ℕ) (e : Entry) (es : List Entry)
      → P i e
      → Listed P (suc i) left es
      → Listed P i (suc left) (e ∷ es)

pub ok_eq {ℓ} : {A : Type ℓ} (a b : A) → ok a ≡ ok b → a ≡ b
ok_eq a b p = cc

zero_code : (c : ℕ) → (c == 0) ≡ true → c ≡ 0
zero_code c h = ground arith

read_name-Spells :
    (fuel : ℕ) (space : AddressSpace) (base i : ℕ) (name : List ℕ)
    → read_name fuel space base i ≡ ok name
    → Spells space base i name
unfolding read_name
read_name-Spells zero space base i name e = cc
read_name-Spells (suc fuel) space base i name e =
    let (c, r, k) = >>=-eq-ok (read_u8 space (add64 base i)) _ e in
    elim (Bool-cases (c == 0)) [
      | inl z ↦
          subst (Spells space base i) (ok_eq [] name (rw z at k))
            (ends i (subst (λ n. read_u8 space (add64 base i) ≡ ok n) (zero_code c z) r))
      | inr z ↦
          let (cs, r', k') = >>=-eq-ok (read_name fuel space base (add64 i 1)) _ (rw z at k) in
          subst (Spells space base i) (ok_eq (c ∷ cs) name k')
            (letter i c cs r z (read_name-Spells fuel space base (add64 i 1) cs r'))
    ]

pub read_entries-Listed :
    (P : ℕ → Entry → Type 0) (read : ℕ → Result Entry)
    → ((i : ℕ) (e : Entry) → read i ≡ ok e → P i e)
    → (i left : ℕ) (es : List Entry) → read_entries read i left ≡ ok es
    → Listed P i left es
unfolding read_entries
read_entries-Listed P read is i zero es e = subst (Listed P i 0) (ok_eq [] es e) (done i)
read_entries-Listed P read is i (suc left) es e =
    let (x, r, k) = >>=-eq-ok (read i) _ e in
    let (xs, r', k') = >>=-eq-ok (read_entries read (suc i) left) _ k in
    subst (Listed P i (suc left)) (ok_eq (x ∷ xs) es k')
      (next i left x xs (is i x r) (read_entries-Listed P read is (suc i) left xs r'))

pub entry32-IsEntry :
    (space : AddressSpace) (t : TableInfo) (names i : ℕ) (e : Entry)
    → entry32 space t names i ≡ ok e
    → IsEntry32 space t names i e
unfolding entry32
entry32-IsEntry space t names i e h =
    let (k, r, h₁) = >>=-eq-ok (read_u32 space (header_at t i)) _ h in
    let (o, r₁, h₂) = >>=-eq-ok (read_u32 space (add64 (header_at t i) 0x10)) _ h₁ in
    let (n, r₂, h₃) = >>=-eq-ok (read_u32 space (add64 (header_at t i) 0x14)) _ h₂ in
    let (v, r₃, h₄) = >>=-eq-ok (read_u32 space (add64 (header_at t i) 0x0c)) _ h₃ in
    let (name, r₄, h₅) = >>=-eq-ok (read_name (name_fuel space) space (add64 names k) 0) _ h₄ in
    subst (IsEntry32 space t names i) (ok_eq _ e h₅) (record {
      name_offset = k;
      name_at = r;
      name = read_name-Spells (name_fuel space) space (add64 names k) 0 name r₄;
      vaddr = r₃;
      offset = r₁;
      size = r₂;
    })

pub entry64-IsEntry :
    (space : AddressSpace) (t : TableInfo) (names i : ℕ) (e : Entry)
    → entry64 space t names i ≡ ok e
    → IsEntry64 space t names i e
unfolding entry64
entry64-IsEntry space t names i e h =
    let (k, r, h₁) = >>=-eq-ok (read_u32 space (header_at t i)) _ h in
    let (o, r₁, h₂) = >>=-eq-ok (read_u64 space (add64 (header_at t i) 0x18)) _ h₁ in
    let (n, r₂, h₃) = >>=-eq-ok (read_u64 space (add64 (header_at t i) 0x20)) _ h₂ in
    let (v, r₃, h₄) = >>=-eq-ok (read_u64 space (add64 (header_at t i) 0x10)) _ h₃ in
    let (name, r₄, h₅) = >>=-eq-ok (read_name (name_fuel space) space (add64 names k) 0) _ h₄ in
    subst (IsEntry64 space t names i) (ok_eq _ e h₅) (record {
      name_offset = k;
      name_at = r;
      name = read_name-Spells (name_fuel space) space (add64 names k) 0 name r₄;
      vaddr = r₃;
      offset = r₁;
      size = r₂;
    })

pub read_table32-IsTable :
    (space : AddressSpace) (t : TableInfo) → read_table32 space ≡ ok t → IsTable32 space t
unfolding read_table32
read_table32-IsTable space t h =
    let (_, r, h₁) = >>=-eq-ok (read_u32 space 0x20) _ h in
    let (_, r₁, h₂) = >>=-eq-ok (read_u16 space 0x2e) _ h₁ in
    let (_, r₂, h₃) = >>=-eq-ok (read_u16 space 0x30) _ h₂ in
    let (_, r₃, h₄) = >>=-eq-ok (read_u16 space 0x32) _ h₃ in
    subst (IsTable32 space) (ok_eq _ t h₄)
      (record { table = r; entry_size = r₁; count = r₂; names_index = r₃ })

pub read_table64-IsTable :
    (space : AddressSpace) (t : TableInfo) → read_table64 space ≡ ok t → IsTable64 space t
unfolding read_table64
read_table64-IsTable space t h =
    let (_, r, h₁) = >>=-eq-ok (read_u64 space 0x28) _ h in
    let (_, r₁, h₂) = >>=-eq-ok (read_u16 space 0x3a) _ h₁ in
    let (_, r₂, h₃) = >>=-eq-ok (read_u16 space 0x3c) _ h₂ in
    let (_, r₃, h₄) = >>=-eq-ok (read_u16 space 0x3e) _ h₃ in
    subst (IsTable64 space) (ok_eq _ t h₄)
      (record { table = r; entry_size = r₁; count = r₂; names_index = r₃ })
