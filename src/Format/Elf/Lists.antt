-- ===== src/Format/Elf/Lists.antt =====
-- What the section lists of a parsed ELF file hold: src/disassembler/format/elf/elf_sections.hpp.
use voidwalk.Common.{
  ℕ, ◌==◌, ◌&&◌, ◌≡◌, List, Result, ok, >>=-eq-ok, arith, Bool-cases, inl, inr, ◌⊎◌, add64, sym,
  true,
}
use voidwalk.AddressSpace.{AddressSpace, read_u32, read_u64}
use voidwalk.Format.Elf.{
  Entry, Found, nothing_found, TableInfo, read_table32, read_table64, names_section_entry,
  for_sections, entry32, entry64, parse_sections32, parse_sections64,
}
use voidwalk.Format.Elf.Collected.{HasLists, for_sections-HasLists}
use voidwalk.Format.Elf.Entries.{
  IsTable32, IsTable64, IsEntry32, IsEntry64, Listed, names_header_at, read_entries-Listed,
  entry32-IsEntry, entry64-IsEntry, read_table32-IsTable, read_table64-IsTable, ok_eq,
}

-- The entries of a table of `count`, each with the property, are what `found` holds.
pub record Describes (P : ℕ → Entry → Type 0) (count : ℕ) (found : Found) : Type 0 where
  pub entries : List Entry
  pub are_listed : Listed P 0 count entries
  pub lists : HasLists entries nothing_found found

describe :
    (P : ℕ → Entry → Type 0) (read : ℕ → Result Entry)
    → ((i : ℕ) (e : Entry) → read i ≡ ok e → P i e)
    → (count : ℕ) (found : Found) → for_sections read 0 count nothing_found ≡ ok found
    → Describes P count found
describe P read is count found e =
    let (es, r, l) = for_sections-HasLists read count nothing_found found e in
    record { entries = es; are_listed = read_entries-Listed P read is 0 count es r; lists = l }

-- A file that has a section table: where its names stand, and what its entries are
abbrev pub Named32 : AddressSpace → TableInfo → Found → Type 0
Named32 space t found =
    (names : ℕ) × (read_u32 space (add64 (names_header_at t) 0x10) ≡ ok names)
    × Describes (IsEntry32 space t names) t.section_count found

abbrev pub Named64 : AddressSpace → TableInfo → Found → Type 0
Named64 space t found =
    (names : ℕ) × (read_u64 space (add64 (names_header_at t) 0x18) ≡ ok names)
    × Describes (IsEntry64 space t names) t.section_count found

-- A file without one, which has no sections
abbrev pub IsStripped : TableInfo → Found → Type 0
IsStripped t found = (t.section_table_offset ≡ 0) × (t.section_count ≡ 0) × (found ≡ nothing_found)

both_zero : (a b : ℕ) → (a == 0 && b == 0) ≡ true → (a ≡ 0) × (b ≡ 0)
both_zero a b h = ground arith

-- Whatever the 64-bit reader accepts, there is no section table and nothing is found, or the four
-- common lists are exactly the headers of the entries named .text, .data, .rodata and .bss, in table
-- order. The table is where the file header says, with as many entries of the size that it says; each
-- has its address, offset and size at 10h, 18h and 20h, and its name up to a NUL at its first field,
-- counted from the offset of the section that the header names for it.
pub parse_sections64-Describes :
    (space : AddressSpace) (found : Found)
    → parse_sections64 space ≡ ok found
    → (t : TableInfo) × IsTable64 space t × (IsStripped t found ⊎ Named64 space t found)
unfolding parse_sections64 names_section_entry
parse_sections64-Describes space found parsed =
    let (t, r, k) = >>=-eq-ok (read_table64 space) _ parsed in
    (
      t,
      read_table64-IsTable space t r,
      elim (Bool-cases (t.section_table_offset == 0 && t.section_count == 0)) [
        | inl stripped ↦
            let (a, b) = both_zero t.section_table_offset t.section_count stripped in
            inl (a, b, sym (ok_eq nothing_found found (rw stripped at k)))
        | inr present ↦
            let (names, r', k') =
              >>=-eq-ok (read_u64 space (add64 (names_header_at t) 0x18)) _ (rw present at k) in
            inr (
              names,
              r',
              describe (IsEntry64 space t names) (entry64 space t names)
                  (entry64-IsEntry space t names) t.section_count found k',
            )
      ],
    )

-- Whatever the 32-bit reader accepts, the four common lists are exactly the headers of the entries
-- named .text, .data, .rodata and .bss, in table order. The table is where the file header says, with
-- as many entries of the size that it says; each has its address, offset and size at 0Ch, 10h and 14h,
-- and its name up to a NUL at its first field, counted from the offset of the section that the header
-- names for it.
pub parse_sections32-Describes :
    (space : AddressSpace) (found : Found)
    → parse_sections32 space ≡ ok found
    → (t : TableInfo) × IsTable32 space t × Named32 space t found
unfolding parse_sections32 names_section_entry
parse_sections32-Describes space found parsed =
    let (t, r, k) = >>=-eq-ok (read_table32 space) _ parsed in
    let (names, r', k') = >>=-eq-ok (read_u32 space (add64 (names_header_at t) 0x10)) _ k in
    (
      t,
      read_table32-IsTable space t r,
      (
        names,
        r',
        describe (IsEntry32 space t names) (entry32 space t names) (entry32-IsEntry space t names)
            t.section_count found k',
      ),
    )
