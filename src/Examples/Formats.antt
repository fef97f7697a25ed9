-- ===== src/Examples/Formats.antt =====
-- Runs of the theorems on src/disassembler/format.
use voidwalk.Common.{ℕ, ◌≡◌, ◌⊎◌, ◌↔◌, refl, [], ◌∷◌, some, ok, err, Ends, arith}
use voidwalk.AddressSpace.{read_u8, invalid_offset}
use voidwalk.Arch.{x86_64, Decoder, make_decoder}
use voidwalk.Format.Section.{Sections, no_sections}
use voidwalk.Format.Elf
use voidwalk.Format.Elf.{Found, TableInfo, no_elf_sections}
use voidwalk.Format.Elf.Entries.{IsTable32, IsTable64}
use voidwalk.Format.Elf.Lists.{
  IsStripped, Named32, Named64, parse_sections64-Describes, parse_sections32-Describes,
}
use voidwalk.Format.Pe
use voidwalk.Format.Detect.{
  Binary, elf_binary, determine_filetype, elf, binary_arch, make_disassembler,
}
use voidwalk.Format.Detect.Magic.{
  IsElf, determine_filetype-elf, determine_filetype-short_dos, make_disassembler-decoder,
}
use voidwalk.Format.Totality.{make_disassembler-Ends}
use voidwalk.Examples.Images.{image, sample_elf, sample_elf32}

abbrev code_at : ℕ → ℕ → Sections
code_at offset size = record no_sections {
  text = record { vaddr = 0x1000; offset = offset; size = size } ∷ [];
}

abbrev sample_found : Found
sample_found = record { common = code_at 200 4; extra = no_elf_sections }

sample_elf_parses : Elf.parse_sections64 sample_elf ≡ ok sample_found
unfolding Elf.parse_sections64 read_u8
sample_elf_parses = refl

parse_sections64-Describes_example :
    (t : TableInfo) × IsTable64 sample_elf t
    × (IsStripped t sample_found ⊎ Named64 sample_elf t sample_found)
parse_sections64-Describes_example =
    parse_sections64-Describes sample_elf sample_found sample_elf_parses

sample_elf32_parses : Elf.parse_sections32 sample_elf32 ≡ ok sample_found
unfolding Elf.parse_sections32 read_u8
sample_elf32_parses = refl

parse_sections32-Describes_example :
    (t : TableInfo) × IsTable32 sample_elf32 t × Named32 sample_elf32 t sample_found
parse_sections32-Describes_example =
    parse_sections32-Describes sample_elf32 sample_found sample_elf32_parses

determine_filetype-elf_example : (determine_filetype sample_elf ≡ ok elf) ↔ IsElf sample_elf
determine_filetype-elf_example = determine_filetype-elf sample_elf

determine_filetype-short_dos_example :
    determine_filetype (image (0x4d ∷ 0x5a ∷ 0x90 ∷ [])) ≡ err invalid_offset
determine_filetype-short_dos_example =
    determine_filetype-short_dos (image (0x4d ∷ 0x5a ∷ 0x90 ∷ [])) (omega arith, refl)
      (omega arith, refl) (omega arith)

abbrev sample_binary : Binary
sample_binary = elf_binary (record { arch = x86_64; found = sample_found; entry_address = 0x1000 })

make_disassembler-decoder_example :
    (d : Decoder) × (make_decoder (binary_arch sample_binary) ≡ some d)
make_disassembler-decoder_example =
    make_disassembler-decoder sample_elf "\nELF Binary detected..\n" sample_binary
      (unfold make_disassembler in refl)

make_disassembler-Ends_example : Ends (make_disassembler sample_elf)
make_disassembler-Ends_example = make_disassembler-Ends sample_elf (omega arith)
