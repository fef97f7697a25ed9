-- ===== src/Format/Pe.antt =====
-- src/disassembler/format/pe: the section table of a PE file, and the PE_Disassembler.
pub mod Kinds
use voidwalk.Common.{
  ℕ, zero, suc, ◌+◌, ◌*◌, ◌%◌, ◌==◌, if◌then◌else◌, ◌≡◌, not, ◌||◌, Bool, true, false, List, [],
  ◌∷◌, ◌++◌, Result, ok, err, ◌>>=◌, Error, runtime_error, add32, add64, mod16, bit_and,
}
use voidwalk.AddressSpace.{AddressSpace, read_u16, read_u32, read_u64}
use voidwalk.Arch.{Arch, unknown, x86, x86_64, arm32, aarch64, is_64bit}
use voidwalk.Format.Section.{Header, Sections, no_sections}

pub data SectionKind : Type 0 where
  code_kind data_kind rodata_kind bss_kind none_kind : SectionKind

-- `characteristics & mask` as a condition
abbrev pub has_bit : ℕ → ℕ → Bool
has_bit characteristics mask = not (bit_and characteristics mask == 0)

unfoldable pub classify : ℕ → SectionKind
classify characteristics =
    if has_bit characteristics 0x20000000 || has_bit characteristics 0x20
    then code_kind
    else if has_bit characteristics 0x80
    then bss_kind
    else if has_bit characteristics 0x40
    then (if has_bit characteristics 0x80000000 then data_kind else rodata_kind)
    else none_kind

-- `sectionLists.find(kind)` and the `push_back` on the list found.
unfoldable pub push_section : SectionKind → Header → Sections → Sections
push_section code_kind h s = record s { text = s.text ++ h ∷ [] }
push_section data_kind h s = record s { data_sections = s.data_sections ++ h ∷ [] }
push_section rodata_kind h s = record s { read_only = s.read_only ++ h ∷ [] }
push_section bss_kind h s = record s { bss = s.bss ++ h ∷ [] }
push_section none_kind h s = s

-- The arguments of `Header(…)`. C++ leaves the order of the three reads open; on a file that
-- does not change they fail alike.
unfoldable pub entry_header : AddressSpace → ℕ → ℕ → Result Header
unfolding read_u32
entry_header space image_base entry_offset = do
  rva ← read_u32 space (add64 entry_offset 12)
  raw_offset ← read_u32 space (add64 entry_offset 20)
  raw_size ← read_u32 space (add64 entry_offset 16)
  ok (record { vaddr = add64 image_base rva; offset = raw_offset; size = raw_size })

-- `it != sectionLists.end()`: the map has every kind but NONE.
unfoldable pub is_kept : SectionKind → Bool
is_kept none_kind = false
is_kept _ = true

-- One round: an entry of no kind that is kept is not read further.
unfoldable pub parse_entry : AddressSpace → ℕ → ℕ → Sections → Result Sections
unfolding entry_header classify is_kept push_section read_u32
parse_entry space image_base entry_offset s = do
  characteristics ← read_u32 space (add64 entry_offset 36)
  let kept = entry_header space image_base entry_offset >>= λ h.
      ok (push_section (classify characteristics) h s)
  if is_kept (classify characteristics) then kept else ok s

-- `for (int i = index; …)`, with the rounds that are left; `i * 40` stays far below 2 ^ 31.
unfoldable pub for_entries : AddressSpace → ℕ → ℕ → ℕ → ℕ → Sections → Result Sections
unfolding parse_entry
for_entries space image_base table index zero s = ok s
for_entries space image_base table index (suc left) s =
    parse_entry space image_base (add64 table (index * 40)) s >>= λ s'.
    for_entries space image_base table (suc index) left s'

-- `peHeaderOffset` is a uint32_t, so the sums of it and an int wrap at 32 bits.
unfoldable pub section_table : ℕ → ℕ → ℕ
section_table header optional_header_size = add32 (add32 header 24) optional_header_size

-- Both readers also give the ImageBase.
unfoldable pub parse_sections32 : AddressSpace → ℕ → Result (ℕ × Sections)
unfolding section_table for_entries read_u16 read_u32
parse_sections32 space header = do
  count ← read_u16 space (add32 header 6)
  optional_header_size ← read_u16 space (add32 header 20)
  image_base ← read_u32 space (add32 header 52)
  s ← for_entries space image_base (section_table header optional_header_size) 0 count no_sections
  ok (image_base, s)

unfoldable pub parse_sections64 : AddressSpace → ℕ → Result (ℕ × Sections)
unfolding section_table for_entries read_u16 read_u64
parse_sections64 space header = do
  count ← read_u16 space (add32 header 6)
  optional_header_size ← read_u16 space (add32 header 20)
  image_base ← read_u64 space (add32 header 48)
  s ← for_entries space image_base (section_table header optional_header_size) 0 count no_sections
  ok (image_base, s)

unfoldable pub arch_of_pe_machine : ℕ → Arch
arch_of_pe_machine machine =
    if machine == 0x14c
    then x86
    else if machine == 0x8664
    then x86_64
    else if machine == 0xaa64
    then aarch64
    else if machine == 0x1c0
    then arm32
    else unknown

-- What the constructor of PE_Disassembler leaves in the object.
pub record PeBinary : Type 0 where
  pub arch : Arch
  pub common : Sections
  pub image_base : ℕ
  pub entry_address : ℕ

abbrev pub unrecognised_pe : Error
unrecognised_pe = runtime_error "Architecture not recognized.\n"

unfoldable pub pe_headers : AddressSpace → ℕ → Arch → Result (ℕ × Sections)
unfolding parse_sections32 parse_sections64 is_64bit
pe_headers space header unknown = err unrecognised_pe
pe_headers space header arch =
    if is_64bit arch then parse_sections64 space header else parse_sections32 space header

unfoldable pub pe_disassembler : AddressSpace → Result PeBinary
unfolding arch_of_pe_machine pe_headers read_u32
pe_disassembler space = do
  header ← read_u32 space 0x3c
  machine ← read_u32 space (add32 header 4)
  let arch = arch_of_pe_machine (machine % mod16)
  (image_base, common) ← pe_headers space header arch
  entry ← read_u32 space (add32 (add32 header 24) 16)
  ok (record {
    arch = arch;
    common = common;
    image_base = image_base;
    entry_address = add64 image_base entry;
  })
