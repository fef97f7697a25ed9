-- ===== src/Format/Detect.antt =====
-- src/disassembler/format/detect.hpp: the container from the magic bytes, and the reader it selects.
pub mod Magic
use voidwalk.Common.{
  ℕ, ◌-◌, ◌==◌, leb, if◌then◌else◌, ◌≡◌, Bool, true, false, String, Result, ok, err, ◌>>=◌, Error,
  runtime_error,
}
use voidwalk.AddressSpace.{AddressSpace, size, read_u8, read_u32}
use voidwalk.Arch.{Arch}
use voidwalk.Format.Section.{Sections}
use voidwalk.Format.Elf.{ElfBinary, elf_disassembler}
use voidwalk.Format.Pe.{PeBinary, pe_disassembler}

-- `&&` on reads: the right side is read only if the left side holds.
abbrev pub and_then : Result Bool → Result Bool → Result Bool
and_then m n = m >>= λ b. if b then n else ok false

unfoldable pub byte_is : AddressSpace → ℕ → ℕ → Result Bool
unfolding read_u8
byte_is space offset b = read_u8 space offset >>= λ x. ok (x == b)

unfoldable pub has_elf_magic : AddressSpace → Result Bool
unfolding size byte_is
has_elf_magic space = and_then (ok (leb 4 (size space))) (
    and_then (byte_is space 0 0x7f)
      (and_then (byte_is space 1 0x45) (and_then (byte_is space 2 0x4c) (byte_is space 3 0x46))))

unfoldable pub has_dos_magic : AddressSpace → Result Bool
unfolding size byte_is
has_dos_magic space =
    and_then (ok (leb 2 (size space))) (and_then (byte_is space 0 0x4d) (byte_is space 1 0x5a))

-- The signature at the offset that 0x3C holds.
unfoldable pub has_pe_signature : AddressSpace → Result Bool
unfolding size read_u32
has_pe_signature space = do
  header ← read_u32 space 0x3c
  and_then (ok (leb header (size space - 4))) (read_u32 space header >>= λ x. ok (x == 0x00004550))

-- The flags `isElf` and `isPe`, which the caller has set to false.
pub data FileType : Type 0 where
  elf pe neither : FileType

unfoldable pub determine_filetype : AddressSpace → Result FileType
unfolding has_elf_magic has_dos_magic has_pe_signature
determine_filetype space = do
  is_elf ← has_elf_magic space
  is_dos ← (if is_elf then ok false else has_dos_magic space)
  is_pe ← (if is_dos then has_pe_signature space else ok false)
  ok (if is_elf then elf else if is_pe then pe else neither)

-- A Disassembler of either class.
pub data Binary : Type 0 where
  elf_binary : ElfBinary → Binary
  pe_binary : PeBinary → Binary

unfoldable pub binary_arch : Binary → Arch
binary_arch (elf_binary b) = b.arch
binary_arch (pe_binary b) = b.arch

unfoldable pub binary_sections : Binary → Sections
binary_sections (elf_binary b) = b.found.common
binary_sections (pe_binary b) = b.common

unfoldable pub binary_entry : Binary → ℕ
binary_entry (elf_binary b) = b.entry_address
binary_entry (pe_binary b) = b.entry_address

abbrev pub not_a_binary : Error
not_a_binary = runtime_error "Not an ELF or PE binary."

unfoldable pub select_disassembler : AddressSpace → FileType → Result Binary
unfolding elf_disassembler pe_disassembler
select_disassembler space elf = elf_disassembler space >>= λ b. ok (elf_binary b)
select_disassembler space pe = pe_disassembler space >>= λ b. ok (pe_binary b)
select_disassembler space neither = err not_a_binary

unfoldable pub detection_message : FileType → String
detection_message elf = "\nELF Binary detected..\n"
detection_message pe = "\nPE Binary detected..\n"
detection_message neither = ""

-- The disassembler and the message for the status bar.
unfoldable pub make_disassembler : AddressSpace → Result (String × Binary)
unfolding determine_filetype select_disassembler detection_message
make_disassembler space = do
  kind ← determine_filetype space
  b ← select_disassembler space kind
  ok (detection_message kind, b)
