-- ===== src/X86/Decoder/Consumes.antt =====
-- The bytes that a part of the decoder of src/arch/x86_64/x86_64_decoder.cpp leaves consumed, whether
-- it returns or throws.
use voidwalk.Common.{
  ℕ, zero, suc, ◌+◌, ◌==◌, ◌<◌, ◌≤◌, ◌≡◌, refl, sym, ◌∙◌, ap, inl, inr, if◌then◌else◌, Bool, true,
  false, Bool-cases, List, [], ◌∷◌, ◌++◌, length, length-append, some, Error, Result, ok, err,
  err_injective, arith,
}
use Prim.{tt}
use mathlib.Core.Path.{subst}
use voidwalk.AddressSpace.{AddressSpace, read_u8}
use voidwalk.X86.Types.{Simd}
use voidwalk.X86.Decoder.Bytes.{
  Fields, Decoding, Outcome, done, too_long, failed, Step, and_then, ◌>>=◌, pure, get, modify,
  modify_simd, set_op_size_prefix, set_addr_size_prefix, lift, next_byte, take_byte, peek,
  read_little_endian,
}
use voidwalk.X86.Decoder.Reads.{Slice, Slice-snoc, Thrown, read_u8-cases}

is_15 : (n : ℕ) → n == 15 ≡ true → n ≡ 15
is_15 n h = ground arith

below_15 : (n : ℕ) → n == 15 ≡ false → n ≤ 15 → n + 1 ≤ 15
below_15 n h k = ground arith

-- The consumed bytes are those of the file from the instruction's offset on, at least `least` of
-- them and at most 15.
pub record Consumed (contents : AddressSpace) (offset least : ℕ) (bytes : List ℕ) : Type 0 where
  pub at_least : least ≤ length bytes
  pub at_most : length bytes ≤ 15
  pub in_file : 1 ≤ length bytes → offset + length bytes ≤ contents.file_size
  pub slice : Slice contents.mapped_data offset bytes

module _ (contents : AddressSpace) (offset least : ℕ) where
  pub data After (A : Type 0) : Outcome A → Type 0 where
    after_done :
        (a : A) (s : Decoding) → Consumed contents offset least s.bytes → After A (done a s)
    after_too_long :
        (s : Decoding)
        → Consumed contents offset least s.bytes
        → length s.bytes ≡ 15
        → After A (too_long s)
    after_failed : (e : Error) → Thrown contents e → After A (failed e)

  pub record Consumes {A : Type 0} (m : Step A) : Type 0 where
    pub from : (s : Decoding) → Consumed contents offset least s.bytes → After A (m s)

module _ (contents : AddressSpace) (offset least : ℕ) where
  pub Consumes-pure : {A : Type 0} (a : A) → Consumes contents offset least (pure a)
  unfolding pure
  Consumes-pure a = record { from = λ s h. after_done a s h }

  pub Consumes-get : Consumes contents offset least get
  unfolding get
  Consumes-get = record { from = λ s h. after_done s s h }

  pub Consumes-modify : (f : Fields → Fields) → Consumes contents offset least (modify f)
  unfolding modify
  Consumes-modify f = record { from = λ s h. after_done tt _ h }

  pub Consumes-modify_simd : (f : Simd → Simd) → Consumes contents offset least (modify_simd f)
  unfolding modify_simd
  Consumes-modify_simd f = record { from = λ s h. after_done tt _ h }

  pub Consumes-set_op_size : (b : Bool) → Consumes contents offset least (set_op_size_prefix b)
  unfolding set_op_size_prefix
  Consumes-set_op_size b = record { from = λ s h. after_done tt _ h }

  pub Consumes-set_addr_size : (b : Bool) → Consumes contents offset least (set_addr_size_prefix b)
  unfolding set_addr_size_prefix
  Consumes-set_addr_size b = record { from = λ s h. after_done tt _ h }

  pub Consumes-if :
      {A : Type 0} (b : Bool) (m n : Step A)
      → Consumes contents offset least m
      → Consumes contents offset least n
      → Consumes contents offset least (if b then m else n)
  Consumes-if true m n h k = h
  Consumes-if false m n h k = k

  pub After-and_then :
      {A B : Type 0} (o : Outcome A) (f : A → Step B)
      → After contents offset least A o
      → ((a : A) → Consumes contents offset least (f a))
      → After contents offset least B (and_then o f)
  After-and_then o f (after_done a s h) k = (k a).from s h
  After-and_then o f (after_too_long s h e) k = after_too_long s h e
  After-and_then o f (after_failed e h) k = after_failed e h

  pub Consumes-bind :
      {A B : Type 0} (m : Step A) (f : A → Step B)
      → Consumes contents offset least m
      → ((a : A) → Consumes contents offset least (f a))
      → Consumes contents offset least (m >>= f)
  unfolding ◌>>=◌
  Consumes-bind m f h k = record { from = λ s c. After-and_then (m s) f (h.from s c) k }

  -- A result that is no error, or one that a read throws
  pub Consumes-lift :
      {A : Type 0} (r : Result A)
      → ((e : Error) → r ≡ err e → Thrown contents e)
      → Consumes contents offset least (lift r)
  unfolding lift
  Consumes-lift (ok a) h = record { from = λ s c. after_done a s c }
  Consumes-lift (err e) h = record { from = λ s c. after_failed e (h e refl) }

  read_u8-Thrown : (at : ℕ) (e : Error) → read_u8 contents at ≡ err e → Thrown contents e
  read_u8-Thrown at e h = elim (read_u8-cases contents at) [
    | inl (b, p, _, _) ↦ cc
    | inr (x, p, thrown) ↦ subst (Thrown contents) (err_injective (sym p ∙ h)) thrown
  ]

  pub Consumes-peek : Consumes contents offset least (peek contents offset)
  unfolding peek
  Consumes-peek = record {
    from = λ s c.
        (Consumes-lift (read_u8 contents (offset + length s.bytes))
            (read_u8-Thrown (offset + length s.bytes))).from
          s c;
  }

  one_more :
      (bytes : List ℕ) (b : ℕ)
      → Consumed contents offset least bytes
      → length bytes == 15 ≡ false
      → contents.mapped_data (offset + length bytes) ≡ some b
      → offset + length bytes < contents.file_size
      → Consumed contents offset (suc least) (bytes ++ b ∷ [])
  one_more bytes b c room e inside =
      let n = length-append bytes (b ∷ []) in
      record {
        at_least = rw n (omega (arith, c.at_least));
        at_most = rw n (below_15 (length bytes) room c.at_most);
        in_file = λ _. rw n (omega arith);
        slice = Slice-snoc contents.mapped_data offset bytes b c.slice e;
      }

  with_byte : Decoding → ℕ → Decoding
  with_byte s b = record s { bytes = s.bytes ++ b ∷ [] }

  full_byte : (s : Decoding) → length s.bytes ≡ 15 → next_byte contents offset s ≡ too_long s
  unfolding next_byte
  full_byte s h = rw h refl

  room_byte :
      (s : Decoding)
      → length s.bytes == 15 ≡ false
      → next_byte contents offset s ≡ take_byte s (read_u8 contents (offset + length s.bytes))
  unfolding next_byte
  room_byte s h = rw h refl

  pub data NextByte (s : Decoding) : Outcome ℕ → Type 0 where
    byte_full : length s.bytes ≡ 15 → NextByte s (too_long s)
    byte_taken :
        (b : ℕ) (t : Decoding)
        → Consumed contents offset (suc least) t.bytes
        → NextByte s (done b t)
    byte_failed : (e : Error) → Thrown contents e → NextByte s (failed e)

  pub next_byte-NextByte :
      (s : Decoding)
      → Consumed contents offset least s.bytes
      → NextByte s (next_byte contents offset s)
  unfolding take_byte
  next_byte-NextByte s c = elim (Bool-cases (length s.bytes == 15)) [
    | inl h ↦
        let full = is_15 (length s.bytes) h in
        subst (NextByte s) (sym (full_byte s full)) (byte_full full)
    | inr h ↦ elim (read_u8-cases contents (offset + length s.bytes)) [
      | inl (b, p, e, inside) ↦
          subst (NextByte s) (sym (room_byte s h ∙ ap (take_byte s) p))
            (byte_taken b _ (one_more s.bytes b c h e inside))
      | inr (e, p, thrown) ↦
          subst (NextByte s) (sym (room_byte s h ∙ ap (take_byte s) p)) (byte_failed e thrown)
    ]
  ]

  pub weaken :
      (bytes : List ℕ)
      → Consumed contents offset (suc least) bytes
      → Consumed contents offset least bytes
  weaken bytes c = record {
    at_least = omega (arith, c.at_least);
    at_most = c.at_most;
    in_file = c.in_file;
    slice = c.slice;
  }

  NextByte-After :
      (s : Decoding) (o : Outcome ℕ)
      → Consumed contents offset least s.bytes
      → NextByte s o
      → After contents offset least ℕ o
  NextByte-After s o c (byte_full h) = after_too_long s c h
  NextByte-After s o c (byte_taken b t d) = after_done b t (weaken t.bytes d)
  NextByte-After s o c (byte_failed e h) = after_failed e h

  pub Consumes-next_byte : Consumes contents offset least (next_byte contents offset)
  Consumes-next_byte = record { from = λ s c. NextByte-After s _ c (next_byte-NextByte s c) }

  pub Consumes-read_little_endian :
      (n : ℕ) → Consumes contents offset least (read_little_endian contents offset n)
  unfolding read_little_endian
  Consumes-read_little_endian zero = Consumes-pure 0
  Consumes-read_little_endian (suc n) =
      Consumes-bind _ _ Consumes-next_byte
        (λ b. Consumes-bind _ _ (Consumes-read_little_endian n) (λ rest. Consumes-pure _))
