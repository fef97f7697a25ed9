-- ===== src/Session/Bytes.antt =====
-- The raw bytes that the panes show: Session::bytes of src/analysis_session.cpp, and bytesOf of
-- src/gui/session.cpp.
use voidwalk.Common.{
  ℕ, zero, suc, ◌+◌, ◌-◌, ◌≤◌, ◌<◌, ltb, leb, if◌then◌else◌, Bool-cases, inl, inr, List, [], ◌∷◌,
  length, none, some, Result, ok, ◌>>=◌, ◌≡◌, refl, ap, arith,
}
use voidwalk.AddressSpace.{AddressSpace, read_u8, join_byte, size}
use voidwalk.AddressSpace.Reads.{IsIntact}
use voidwalk.X86.Decoder.Reads.{Slice}
use Prim.{tt}
use voidwalk.Session.{Session}

-- The loop: `count` bytes from an offset on
unfoldable pub read_bytes : AddressSpace → ℕ → ℕ → Result (List ℕ)
unfolding read_u8
read_bytes space offset zero = ok []
read_bytes space offset (suc count) = do
  b ← read_u8 space offset
  rest ← read_bytes space (suc offset) count
  ok (b ∷ rest)

unfoldable pub bytes_of : AddressSpace → ℕ → ℕ → Result (List ℕ)
unfolding size read_bytes
bytes_of space offset count =
    let max = size space in
    if leb max offset
    then ok []
    else read_bytes space offset (if ltb (max - offset) count then max - offset else count)

unfoldable pub bytes : Session → ℕ → ℕ → Result (List ℕ)
unfolding bytes_of
bytes s offset count = elim s.space [ none ↦ ok [] | some space ↦ bytes_of space offset count ]

-- The bytes of the file at an offset, as many as were asked for or as there are
pub record Shown (space : AddressSpace) (offset count : ℕ) (bs : List ℕ) : Type 0 where
  pub slice : Slice space.mapped_data offset bs
  pub at_most : length bs ≤ count
  pub all : offset + count ≤ space.file_size → length bs ≡ count
  pub cut : space.file_size < offset + count → length bs ≡ space.file_size - offset

pub read_u8-mapped :
    (space : AddressSpace) (i b : ℕ)
    → i < space.file_size
    → space.mapped_data i ≡ some b
    → read_u8 space i ≡ ok b
unfolding read_u8 join_byte
read_u8-mapped space i b h e = ground arith

module _ (space : AddressSpace) (intact : IsIntact space) where
  read_bytes-Slice :
      (count offset : ℕ)
      → offset + count ≤ space.file_size
      → (bs : List ℕ) × (read_bytes space offset count ≡ ok bs)
        × (length bs ≡ count)
        × Slice space.mapped_data offset bs
  unfolding read_bytes Slice
  read_bytes-Slice zero offset fits = ([], refl, refl, tt)
  read_bytes-Slice (suc count) offset fits =
      let (b, at, _) = intact.byte_at offset (omega arith) in
      let (bs, e, n, slice) = read_bytes-Slice count (suc offset) (omega arith) in
      (
        b ∷ bs,
        rw (read_u8-mapped space offset b (omega arith) at) (rw e refl),
        ap suc n,
        (at, slice),
      )

  -- The bytes that a pane is given are those of the file at the offset, as many as it asked for, or
  -- as there are before the end of the file; on an intact file the read does not throw.
  pub bytes_of-Shown :
      (offset count : ℕ)
      → (bs : List ℕ) × (bytes_of space offset count ≡ ok bs) × Shown space offset count bs
  unfolding bytes_of size Slice
  bytes_of-Shown offset count = elim (Bool-cases (leb space.file_size offset)) [
    | inl past ↦ (
      [],
      rw past refl,
      record {
        slice = tt;
        at_most = omega arith;
        all = λ h. ground arith;
        cut = λ h. ground arith;
      },
    )
    | inr inside ↦
        let wanted =
          if ltb (space.file_size - offset) count then space.file_size - offset else count in
        let (bs, e, n, slice) = read_bytes-Slice wanted offset (ground arith) in
        (
          bs,
          rw inside e,
          record {
            slice = slice;
            at_most = rw n (ground arith);
            all = λ h. rw n (ground arith);
            cut = λ h. rw n (ground arith);
          },
        )
  ]
