-- ===== src/Format/Totality.antt =====
-- Loading ends on every file: no header field makes a reader of src/disassembler/format loop.
use voidwalk.Common.{
  ℕ, zero, suc, ◌<◌, Result, mod64, arith, Ends, Ends-ok, Ends-length_error, Ends-runtime_error,
  Ends-if, Ends-bind,
}
use voidwalk.AddressSpace.{AddressSpace, read_type, read_u8, read_u16, read_u32, read_u64}
use voidwalk.Arch.{Arch, unknown}
use voidwalk.Format.Section.{Sections}
use voidwalk.Format.Names.{read_name, name_fuel, read_name-total}
use voidwalk.Format.Elf
use voidwalk.Format.Elf.{Entry, Found, TableInfo, for_sections}
use voidwalk.Format.Pe
use voidwalk.Format.Pe.{SectionKind, none_kind}
use voidwalk.Format.Detect.{
  make_disassembler, FileType, elf, pe, neither, select_disassembler, determine_filetype,
  has_elf_magic, has_dos_magic, has_pe_signature, byte_is,
}

Ends-read_type :
    (width : ℕ) (space : AddressSpace) (offset : ℕ) → Ends (read_type width space offset)
unfolding read_type
Ends-read_type width space offset = record { at = λ e. ground arith }

Ends-read_u8 : (space : AddressSpace) (offset : ℕ) → Ends (read_u8 space offset)
unfolding read_u8
Ends-read_u8 = Ends-read_type 1

Ends-read_u16 : (space : AddressSpace) (offset : ℕ) → Ends (read_u16 space offset)
unfolding read_u16
Ends-read_u16 = Ends-read_type 2

Ends-read_u32 : (space : AddressSpace) (offset : ℕ) → Ends (read_u32 space offset)
unfolding read_u32
Ends-read_u32 = Ends-read_type 4

Ends-read_u64 : (space : AddressSpace) (offset : ℕ) → Ends (read_u64 space offset)
unfolding read_u64
Ends-read_u64 = Ends-read_type 8

ruleset read_rules = (
  Ends-ok, Ends-length_error, Ends-runtime_error, Ends-if, Ends-bind, Ends-read_u8, Ends-read_u16,
  Ends-read_u32, Ends-read_u64,
)

Ends-for_sections :
    (read : ℕ → Result Entry) (index left : ℕ) (f : Found)
    → ((i : ℕ) → Ends (read i))
    → Ends (for_sections read index left f)
unfolding for_sections
Ends-for_sections read index zero f h = Ends-ok f
Ends-for_sections read index (suc left) f h =
    Ends-bind (read index) _ (h index) (λ e. Ends-for_sections read (suc index) left _ h)

-- The ELF reader.
module _ (space : AddressSpace) (bounded : space.file_size < mod64) where
  Ends-read_name : (base : ℕ) → Ends (read_name (name_fuel space) space base 0)
  Ends-read_name base = record { at = read_name-total space base bounded }

  Ends-entry32 : (t : TableInfo) (names i : ℕ) → Ends (Elf.entry32 space t names i)
  unfolding Elf.entry32
  Ends-entry32 t names i = search (read_rules, Ends-read_name) depth 12

  Ends-entry64 : (t : TableInfo) (names i : ℕ) → Ends (Elf.entry64 space t names i)
  unfolding Elf.entry64
  Ends-entry64 t names i = search (read_rules, Ends-read_name) depth 12

  Ends-elf32 : Ends (Elf.parse_sections32 space)
  unfolding Elf.parse_sections32 Elf.read_table32
  Ends-elf32 = search (read_rules, Ends-for_sections, Ends-entry32) depth 14

  Ends-elf64 : Ends (Elf.parse_sections64 space)
  unfolding Elf.parse_sections64 Elf.read_table64
  Ends-elf64 = search (read_rules, Ends-for_sections, Ends-entry64) depth 14

  Ends-elf_headers : (arch : Arch) → Ends (Elf.elf_headers space arch)
  unfolding Elf.elf_headers
  Ends-elf_headers unknown = search read_rules depth 8
  Ends-elf_headers _ = search (Ends-if, Ends-elf64, Ends-elf32)

  Ends-elf : Ends (Elf.elf_disassembler space)
  unfolding Elf.elf_disassembler
  Ends-elf = search (read_rules, Ends-elf_headers) depth 12

module _ (space : AddressSpace) where
  Ends-entry_header : (base entry : ℕ) → Ends (Pe.entry_header space base entry)
  unfolding Pe.entry_header
  Ends-entry_header base entry = search read_rules depth 12

  Ends-parse_entry : (base entry : ℕ) (s : Sections) → Ends (Pe.parse_entry space base entry s)
  unfolding Pe.parse_entry
  Ends-parse_entry base entry s = search (read_rules, Ends-entry_header) depth 12

  Ends-for_entries :
      (base table i left : ℕ) (s : Sections) → Ends (Pe.for_entries space base table i left s)
  unfolding Pe.for_entries
  Ends-for_entries base table i zero s = Ends-ok s
  Ends-for_entries base table i (suc left) s =
      Ends-bind _ _ (Ends-parse_entry base _ s) (λ s'. Ends-for_entries base table (suc i) left s')

  Ends-pe32 : (header : ℕ) → Ends (Pe.parse_sections32 space header)
  unfolding Pe.parse_sections32
  Ends-pe32 header = search (read_rules, Ends-for_entries) depth 14

  Ends-pe64 : (header : ℕ) → Ends (Pe.parse_sections64 space header)
  unfolding Pe.parse_sections64
  Ends-pe64 header = search (read_rules, Ends-for_entries) depth 14

  Ends-pe_headers : (header : ℕ) (arch : Arch) → Ends (Pe.pe_headers space header arch)
  unfolding Pe.pe_headers
  Ends-pe_headers header unknown = search read_rules
  Ends-pe_headers header _ = search (Ends-if, Ends-pe64, Ends-pe32)

  Ends-pe : Ends (Pe.pe_disassembler space)
  unfolding Pe.pe_disassembler
  Ends-pe = search (read_rules, Ends-pe_headers) depth 14

  Ends-byte_is : (offset b : ℕ) → Ends (byte_is space offset b)
  unfolding byte_is
  Ends-byte_is offset b = search read_rules

  Ends-elf_magic : Ends (has_elf_magic space)
  unfolding has_elf_magic
  Ends-elf_magic = search (read_rules, Ends-byte_is) depth 20

  Ends-dos_magic : Ends (has_dos_magic space)
  unfolding has_dos_magic
  Ends-dos_magic = search (read_rules, Ends-byte_is) depth 12

  Ends-pe_signature : Ends (has_pe_signature space)
  unfolding has_pe_signature
  Ends-pe_signature = search read_rules depth 12

  Ends-determine_filetype : Ends (determine_filetype space)
  unfolding determine_filetype
  Ends-determine_filetype =
      search (read_rules, Ends-elf_magic, Ends-dos_magic, Ends-pe_signature) depth 12

Ends-select :
    (space : AddressSpace) (kind : FileType)
    → space.file_size < mod64
    → Ends (select_disassembler space kind)
unfolding select_disassembler
Ends-select space elf h = search (read_rules, Ends-elf space h)
Ends-select space pe h = search (read_rules, Ends-pe)
Ends-select space neither h = search read_rules

-- `make_disassembler` ends on every file whose size a `size_t` can hold: with a disassembler or an
-- exception, and never inside a loop, whatever the headers say.
pub make_disassembler-Ends :
    (space : AddressSpace) → space.file_size < mod64 → Ends (make_disassembler space)
unfolding make_disassembler
make_disassembler-Ends space h =
    search (read_rules, Ends-determine_filetype, λ (k : FileType). Ends-select space k h) depth 8
