-- ===== src/Format/Elf.antt =====
-- src/disassembler/format/elf: the section header table of an ELF file, and the ELF_Disassembler.
pub mod Collected
pub mod Entries
pub mod Lists
use voidwalk.Common.{
  ℕ, zero, suc, ◌+◌, ◌<◌, ◌==◌, ltb, if◌then◌else◌, ◌≡◌, refl, ◌&&◌, Bool, true, false, List, [],
  ◌∷◌, ◌++◌, Option, none, some, Result, ok, err, ◌>>=◌, Error, runtime_error, add64, mul64, codes,
  bytes_eq, String,
}
use voidwalk.AddressSpace.{AddressSpace, size, read_u16, read_u32, read_u64, read_type}
use voidwalk.Arch.{Arch, unknown, x86, x86_64, arm32, aarch64, is_64bit}
use voidwalk.Format.Section.{Header, absent, Sections, no_sections}
use voidwalk.Format.Names.{read_name, name_fuel}

pub record ElfSections : Type 0 where
  pub symtab : Header
  pub dynsym : Header
  pub strtab : Header
  pub dynstr : Header
  pub plt : Header
  pub got : Header
  pub rel : Header
  pub eh_frame : Header

abbrev pub no_elf_sections : ElfSections
no_elf_sections = record {
  symtab = absent;
  dynsym = absent;
  strtab = absent;
  dynstr = absent;
  plt = absent;
  got = absent;
  rel = absent;
  eh_frame = absent;
}

-- The two structures that the reader fills.
pub record Found : Type 0 where
  pub common : Sections
  pub extra : ElfSections

abbrev pub nothing_found : Found
nothing_found = record { common = no_sections; extra = no_elf_sections }

-- The closures of `sectionHandlers`, by the list or field that each writes.
pub data Store : Type 0 where
  to_text to_data to_rodata to_bss : Store
  to_symtab to_dynsym to_strtab to_dynstr to_plt to_got to_eh_frame : Store

unfoldable pub store : Store → Header → Found → Found
store to_text h f = record f { common = record (f.common) { text = f.common.text ++ h ∷ [] } }
store to_data h f = record f {
  common = record (f.common) { data_sections = f.common.data_sections ++ h ∷ [] };
}
store to_rodata h f = record f {
  common = record (f.common) { read_only = f.common.read_only ++ h ∷ [] };
}
store to_bss h f = record f { common = record (f.common) { bss = f.common.bss ++ h ∷ [] } }
store to_symtab h f = record f { extra = record (f.extra) { symtab = h } }
store to_dynsym h f = record f { extra = record (f.extra) { dynsym = h } }
store to_strtab h f = record f { extra = record (f.extra) { strtab = h } }
store to_dynstr h f = record f { extra = record (f.extra) { dynstr = h } }
store to_plt h f = record f { extra = record (f.extra) { plt = h } }
store to_got h f = record f { extra = record (f.extra) { got = h } }
store to_eh_frame h f = record f { extra = record (f.extra) { eh_frame = h } }

-- `sectionHandlers`, the same map in both readers.
abbrev pub section_handlers : List (String × Store)
section_handlers =
    (".text", to_text)
    ∷ (".data", to_data)
    ∷ (".rodata", to_rodata)
    ∷ (".bss", to_bss)
    ∷ (".symtab", to_symtab)
    ∷ (".dynsym", to_dynsym)
    ∷ (".strtab", to_strtab)
    ∷ (".dynstr", to_dynstr)
    ∷ (".plt", to_plt)
    ∷ (".got", to_got)
    ∷ (".eh_frame", to_eh_frame)
    ∷ []

-- `sectionHandlers.find(sectionName)`
unfoldable pub find : List (String × Store) → List ℕ → Option Store
unfolding bytes_eq
find [] name = none
find ((key, s) ∷ rest) name = if bytes_eq (codes key) name then some s else find rest name

unfoldable pub handle : List ℕ → Header → Found → Found
unfolding find store
handle name h f = elim (find section_handlers name) [ none ↦ f | some s ↦ store s h f ]

-- The fields of the file header that locate the section header table.
pub record TableInfo : Type 0 where
  pub section_table_offset : ℕ
  pub section_entry_size : ℕ
  pub section_count : ℕ
  pub names_section_index : ℕ

-- One round of the loop over the section header table: the entry's name and its Header.
abbrev pub Entry : Type 0
Entry = List ℕ × Header

unfoldable pub entry32 : AddressSpace → TableInfo → ℕ → ℕ → Result Entry
unfolding read_name read_u32
entry32 space t names_offset index = do
  let entry = add64 t.section_table_offset (mul64 t.section_entry_size index)
  name_offset ← read_u32 space entry
  section_offset ← read_u32 space (add64 entry 0x10)
  section_size ← read_u32 space (add64 entry 0x14)
  section_vaddr ← read_u32 space (add64 entry 0x0c)
  name ← read_name (name_fuel space) space (add64 names_offset name_offset) 0
  ok (name, record { vaddr = section_vaddr; offset = section_offset; size = section_size })

unfoldable pub entry64 : AddressSpace → TableInfo → ℕ → ℕ → Result Entry
unfolding read_name read_u32 read_u64
entry64 space t names_offset index = do
  let entry = add64 t.section_table_offset (mul64 t.section_entry_size index)
  name_offset ← read_u32 space entry
  section_offset ← read_u64 space (add64 entry 0x18)
  section_size ← read_u64 space (add64 entry 0x20)
  section_vaddr ← read_u64 space (add64 entry 0x10)
  name ← read_name (name_fuel space) space (add64 names_offset name_offset) 0
  ok (name, record { vaddr = section_vaddr; offset = section_offset; size = section_size })

-- `for (uint16_t sectionIndex = index; …)`, with the rounds that are left. The count is read as 16
-- bits, so the index does not wrap.
unfoldable pub for_sections : (ℕ → Result Entry) → ℕ → ℕ → Found → Result Found
unfolding handle
for_sections read index zero f = ok f
for_sections read index (suc left) f =
    read index >>= λ e. for_sections read (suc index) left (handle e.0 e.1 f)

unfoldable pub read_table32 : AddressSpace → Result TableInfo
unfolding read_u16 read_u32
read_table32 space = do
  table ← read_u32 space 0x20
  entry_size ← read_u16 space 0x2e
  count ← read_u16 space 0x30
  names_index ← read_u16 space 0x32
  ok (record {
    section_table_offset = table;
    section_entry_size = entry_size;
    section_count = count;
    names_section_index = names_index;
  })

unfoldable pub read_table64 : AddressSpace → Result TableInfo
unfolding read_u16 read_u64
read_table64 space = do
  table ← read_u64 space 0x28
  entry_size ← read_u16 space 0x3a
  count ← read_u16 space 0x3c
  names_index ← read_u16 space 0x3e
  ok (record {
    section_table_offset = table;
    section_entry_size = entry_size;
    section_count = count;
    names_section_index = names_index;
  })

-- Where the header of the section that holds the names is.
unfoldable pub names_section_entry : TableInfo → ℕ
names_section_entry t =
    add64 t.section_table_offset (mul64 t.names_section_index t.section_entry_size)

unfoldable pub parse_sections32 : AddressSpace → Result Found
unfolding entry32 for_sections read_table32 names_section_entry read_u32
parse_sections32 space = do
  t ← read_table32 space
  names_offset ← read_u32 space (add64 (names_section_entry t) 0x10)
  for_sections (entry32 space t names_offset) 0 t.section_count nothing_found

-- A file with no section table, as `sstrip` leaves it, has no sections.
unfoldable pub parse_sections64 : AddressSpace → Result Found
unfolding entry64 for_sections read_table64 names_section_entry read_u64
parse_sections64 space = do
  t ← read_table64 space
  let sections = read_u64 space (add64 (names_section_entry t) 0x18) >>= λ names_offset.
      for_sections (entry64 space t names_offset) 0 t.section_count nothing_found
  if t.section_table_offset == 0 && t.section_count == 0 then ok nothing_found else sections

unfoldable pub arch_of_elf_machine : ℕ → Arch
arch_of_elf_machine machine =
    if machine == 0x03
    then x86
    else if machine == 0x28
    then arm32
    else if machine == 0x3e
    then x86_64
    else if machine == 0xb7
    then aarch64
    else unknown

-- What the constructor of ELF_Disassembler leaves in the object.
pub record ElfBinary : Type 0 where
  pub arch : Arch
  pub found : Found
  pub entry_address : ℕ

abbrev pub unsupported_elf : Error
unsupported_elf = runtime_error "Unsupported ELF architecture"

-- `setHeadersOffsets`. The message of the source goes on with the machine number.
unfoldable pub elf_headers : AddressSpace → Arch → Result Found
unfolding parse_sections32 parse_sections64 is_64bit read_u16
elf_headers space unknown = do machine ← read_u16 space 0x12; err unsupported_elf
elf_headers space arch = if is_64bit arch then parse_sections64 space else parse_sections32 space

unfoldable pub elf_disassembler : AddressSpace → Result ElfBinary
unfolding arch_of_elf_machine elf_headers read_u16 read_u32 read_u64 size
elf_disassembler space =
    if ltb (size space) 52 then err (runtime_error "Truncated ELF header.") else (do
      machine ← read_u16 space 0x12
      let arch = arch_of_elf_machine machine
      found ← elf_headers space arch
      entry ← (if is_64bit arch then read_u64 space 0x18 else read_u32 space 0x18)
      ok (record { arch = arch; found = found; entry_address = entry }))
