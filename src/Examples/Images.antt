-- ===== src/Examples/Images.antt =====
-- Small files for the tests: an ELF, a PE, and a few bytes of code.
use voidwalk.Common.{
  ℕ, zero, suc, ◌<◌, ◌==◌, ◌≡◌, refl, if◌then◌else◌, List, [], ◌∷◌, length, get_elem?, All, some,
  arith,
}
use voidwalk.AddressSpace.{AddressSpace}
use voidwalk.AddressSpace.Reads.{IsIntact}

abbrev pub image : List ℕ → AddressSpace
image bytes = record { mapped_data = get_elem? bytes; file_size = length bytes }

byte_of :
    (bytes : List ℕ)
    → All (λ b. b < 256) bytes
    → (i : ℕ) → i < length bytes
    → (b : ℕ) × (get_elem? bytes i ≡ some b) × (b < 256)
byte_of [] h i l = elim (none_below i l) [ ]
  where
    none_below : (i : ℕ) → i < 0 → ⊥
    none_below i l = omega arith
byte_of (x ∷ xs) (h, hs) zero l = (x, refl, h)
byte_of (x ∷ xs) (h, hs) (suc i) l = byte_of xs hs i (omega arith)

pub image-IsIntact : (bytes : List ℕ) → All (λ b. b < 256) bytes → IsIntact (image bytes)
image-IsIntact bytes h = record { byte_at = byte_of bytes h }

abbrev pub four : AddressSpace
four = image (1 ∷ 2 ∷ 3 ∷ 4 ∷ [])

pub four-IsIntact : IsIntact four
four-IsIntact =
    image-IsIntact (1 ∷ 2 ∷ 3 ∷ 4 ∷ [])
      (omega arith, (omega arith, (omega arith, (omega arith, tt))))

-- The bytes that are not 0, by their position.
abbrev byte_in : List (ℕ × ℕ) → ℕ → ℕ
byte_in [] i = 0
byte_in ((at, b) ∷ rest) i = if at == i then b else byte_in rest i

abbrev pub sparse : ℕ → List (ℕ × ℕ) → AddressSpace
sparse size bytes = record { mapped_data = λ i. some (byte_in bytes i); file_size = size }

-- A 64-bit x86_64 file whose one section besides the names is .text: four bytes at 200.
abbrev pub sample_elf : AddressSpace
sample_elf = sparse 204 (
    (0, 0x7f)
    ∷ (1, 0x45)
    ∷ (2, 0x4c)
    ∷ (3, 0x46)
    ∷ (4, 2)
    ∷ (0x12, 0x3e)
    ∷ (0x19, 0x10)
    ∷ (0x28, 64)
    ∷ (0x3a, 64)
    ∷ (0x3c, 2)
    ∷ (0x3e, 1)
    ∷ (64, 1)
    ∷ (81, 0x10)
    ∷ (88, 200)
    ∷ (96, 4)
    ∷ (152, 192)
    ∷ (193, 0x2e)
    ∷ (194, 0x74)
    ∷ (195, 0x65)
    ∷ (196, 0x78)
    ∷ (197, 0x74)
    ∷ (200, 0x90)
    ∷ (201, 0x90)
    ∷ (202, 0x90)
    ∷ (203, 0xc3)
    ∷ [])

-- The same as a 32-bit file, with its tables at the same places.
abbrev pub sample_elf32 : AddressSpace
sample_elf32 = sparse 204 (
    (0, 0x7f)
    ∷ (1, 0x45)
    ∷ (2, 0x4c)
    ∷ (3, 0x46)
    ∷ (4, 1)
    ∷ (0x12, 3)
    ∷ (0x20, 64)
    ∷ (0x2e, 40)
    ∷ (0x30, 2)
    ∷ (0x32, 1)
    ∷ (64, 1)
    ∷ (77, 0x10)
    ∷ (80, 200)
    ∷ (84, 4)
    ∷ (120, 192)
    ∷ (193, 0x2e)
    ∷ (194, 0x74)
    ∷ (195, 0x65)
    ∷ (196, 0x78)
    ∷ (197, 0x74)
    ∷ [])

-- A PE header at 0x40 and one section of code.
abbrev pub sample_pe : AddressSpace
sample_pe = sparse 0x170 (
    (0, 0x4d)
    ∷ (1, 0x5a)
    ∷ (0x3c, 0x40)
    ∷ (0x40, 0x50)
    ∷ (0x41, 0x45)
    ∷ (0x44, 0x64)
    ∷ (0x45, 0x86)
    ∷ (0x46, 1)
    ∷ (0x54, 0xf0)
    ∷ (0x150, 4)
    ∷ (0x155, 0x10)
    ∷ (0x15c, 0x60)
    ∷ (0x16c, 0x20)
    ∷ [])
