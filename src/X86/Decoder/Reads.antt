-- ===== src/X86/Decoder/Reads.antt =====
-- What a part of the decoder can do with the bytes of the file: src/arch/x86_64/x86_64_decoder.cpp.
use voidwalk.Common.{
  ℕ, suc, ◌+◌, ◌-◌, ltb, ◌<◌, ◌≡◌, refl, ◌⊎◌, inl, inr, false, Bool-cases, ltb→lt, List, [], ◌∷◌,
  ◌++◌, length, Option, none, some, Option-cases, Error, file_changed, ok, err, arith,
}
use Prim.{Unit, tt}
use mathlib.Core.Path.{subst}
use voidwalk.AddressSpace.{
  AddressSpace, read_u8, read_type, read_back, load, join_byte, invalid_offset,
}
use voidwalk.AddressSpace.Reads.{IsIntact, read_outside}

-- The bytes of the file from an offset on
unfoldable pub Slice : (ℕ → Option ℕ) → ℕ → List ℕ → Type 0
Slice byte offset [] = Unit
Slice byte offset (b ∷ bs) = (byte offset ≡ some b) × Slice byte (suc offset) bs

-- The exceptions that a read of the file throws
pub data Thrown (contents : AddressSpace) : Error → Type 0 where
  past_end : Thrown contents invalid_offset
  cut : (IsIntact contents → ⊥) → Thrown contents file_changed

pub Slice-snoc :
    (byte : ℕ → Option ℕ) (offset : ℕ) (bs : List ℕ) (b : ℕ)
    → Slice byte offset bs
    → byte (offset + length bs) ≡ some b
    → Slice byte offset (bs ++ b ∷ [])
unfolding Slice
Slice-snoc byte offset [] b h e =
    let at : offset + 0 ≡ offset = omega arith in (subst (λ n. byte n ≡ some b) at e, tt)
Slice-snoc byte offset (x ∷ xs) b (p, h) e =
    let at : offset + suc (length xs) ≡ suc offset + length xs = omega arith in
    (p, Slice-snoc byte (suc offset) xs b h (subst (λ n. byte n ≡ some b) at e))

cut_byte :
    (contents : AddressSpace) (at : ℕ)
    → at < contents.file_size
    → contents.mapped_data at ≡ none
    → IsIntact contents
    → ⊥
cut_byte contents at h e i = let (b, p, _) = i.byte_at at h in cc

module _ (contents : AddressSpace) (at : ℕ) where
  ltb_over : at < contents.file_size → ltb contents.file_size at ≡ false
  ltb_over h = ground arith

  ltb_room : at < contents.file_size → ltb (contents.file_size - at) 1 ≡ false
  ltb_room h = ground arith

  read_whole :
      (b : ℕ)
      → at < contents.file_size
      → contents.mapped_data at ≡ some b
      → read_u8 contents at ≡ ok b
  unfolding read_u8 read_type load join_byte read_back
  read_whole b h e = let same : b + 0 ≡ b = omega arith in rw (e, ltb_over h, ltb_room h, same) refl

  read_cut :
      at < contents.file_size
      → contents.mapped_data at ≡ none
      → read_u8 contents at ≡ err file_changed
  unfolding read_u8 read_type load join_byte read_back
  read_cut h e = rw (e, ltb_over h, ltb_room h) refl

  pub read_u8-cases :
      ((b : ℕ) × (read_u8 contents at ≡ ok b)
        × (contents.mapped_data at ≡ some b)
        × (at < contents.file_size))
      ⊎ ((e : Error) × (read_u8 contents at ≡ err e) × Thrown contents e)
  unfolding read_u8
  read_u8-cases = elim (Bool-cases (ltb at contents.file_size)) [
    | inr h ↦ inr (invalid_offset, read_outside contents 1 at (ground arith), past_end)
    | inl h ↦ elim (Option-cases (contents.mapped_data at)) [
      | inr (b, e) ↦ inl (b, read_whole b (ground arith) e, e, ground arith)
      | inl e ↦
          let inside = ltb→lt at contents.file_size h in
          inr (file_changed, read_cut inside e, cut (cut_byte contents at inside e))
    ]
  ]
