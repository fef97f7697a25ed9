-- ===== src/AddressSpace.antt =====
-- src/address_space.hpp and src/address_space.cpp (the POSIX side): a binary mapped read-only.
pub mod Reads
use voidwalk.Common.{
  ℕ, zero, suc, ◌+◌, ◌-◌, ◌*◌, ltb, ◌==◌, if◌then◌else◌, Bool, true, false, not, ◌||◌, Option, none,
  some, Error, length_error, file_changed, Result, ok, err,
}

-- What the operating system answers for a path: whether `open`, `fstat` and `mmap` succeed, the
-- file's metadata, and the bytes of the mapping. `page_byte` has no value where a read of the
-- mapping raises SIGBUS, since the file was cut after it was mapped.
pub record FileStatus : Type 0 where
  pub opens : Bool
  pub stats : Bool
  pub is_regular : Bool
  pub st_size : ℕ
  pub maps : Bool
  pub page_byte : ℕ → Option ℕ

pub record AddressSpace : Type 0 where
  pub mapped_data : ℕ → Option ℕ
  pub file_size : ℕ

-- The constructor.
unfoldable pub open_file : FileStatus → Result AddressSpace
open_file f =
    if not f.opens
    then err (length_error "[voidwalk] : Inaccessible file.\n")
    else if not f.stats || not f.is_regular
    then err (length_error "[voidwalk] : Invalid file.\n")
    else if f.st_size == 0
    then err (length_error "[voidwalk] : Empty file.\n")
    else if not f.maps
    then err (length_error "[voidwalk] : Cannot map file.\n")
    else ok (record { mapped_data = f.page_byte; file_size = f.st_size })

abbrev pub invalid_offset : Error
invalid_offset = length_error "[voidwalk] : Invalid offset.\n"

-- One byte in front of the bytes that follow it, in little-endian order.
unfoldable pub join_byte : Option ℕ → Option ℕ → Option ℕ
join_byte none rest = none
join_byte (some b) none = none
join_byte (some b) (some rest) = some (b + 256 * rest)

-- The `memcpy` of `width` bytes into a value of that many bytes.
unfoldable pub load : (ℕ → Option ℕ) → ℕ → ℕ → Option ℕ
unfolding join_byte
load byte zero offset = some 0
load byte (suc width) offset = join_byte (byte offset) (load byte width (offset + 1))

-- A SIGBUS during the read is thrown as `FileChanged`.
unfoldable pub read_back : Option ℕ → Result ℕ
read_back none = err file_changed
read_back (some v) = ok v

-- `readType<T>` with `sizeof(T) = width`
unfoldable pub read_type : ℕ → AddressSpace → ℕ → Result ℕ
unfolding load read_back
read_type width space offset =
    if ltb space.file_size offset || ltb (space.file_size - offset) width
    then err invalid_offset
    else read_back (load space.mapped_data width offset)

unfoldable pub read_u8 : AddressSpace → ℕ → Result ℕ
unfolding read_type
read_u8 = read_type 1

unfoldable pub read_u16 : AddressSpace → ℕ → Result ℕ
unfolding read_type
read_u16 = read_type 2

unfoldable pub read_u32 : AddressSpace → ℕ → Result ℕ
unfolding read_type
read_u32 = read_type 4

unfoldable pub read_u64 : AddressSpace → ℕ → Result ℕ
unfolding read_type
read_u64 = read_type 8

unfoldable pub size : AddressSpace → ℕ
size space = space.file_size
