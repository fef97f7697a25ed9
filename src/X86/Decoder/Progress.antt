-- ===== src/X86/Decoder/Progress.antt =====
-- What one call of decodeLine of src/arch/x86_64/x86_64_decoder.cpp does: the bytes that it consumes,
-- the row that it appends, and when it throws.
use voidwalk.Common.{
  ℕ, zero, suc, ◌+◌, ◌≤◌, ◌≡◌, ◌≢◌, refl, if◌then◌else◌, [], length, Bool, true, false, not, ◌&&◌,
  ◌/◌, ◌==◌, Option, none, some, Error, file_changed, Result, ok, err, arith,
}
use Prim.{Unit, tt}
use voidwalk.AddressSpace.{AddressSpace}
use voidwalk.AddressSpace.Reads.{IsIntact}
use voidwalk.ChunkStore.{ChunkStore, VectorPolicy, chunk_size, push_back}
use voidwalk.X86.OneByte.{is_prefix}
use voidwalk.X86.OneByte.Groups.{resolved_info-total}
use voidwalk.X86.Types.{OpcodeInfo}
use voidwalk.X86.Decoder.Prefix.{prefixes}
use voidwalk.X86.Decoder.Operands.{row_of, select_row}
use voidwalk.X86.Decoder.{
  read_operands, decode_from, decode_instruction, Instruction, finish, emit, mark_invalid,
  decode_line,
}
use voidwalk.X86.Decoder.Bytes.{Step, Decoding, Outcome, start, ◌>>=◌, next_byte, and_then}
use voidwalk.X86.Decoder.Reads.{past_end, cut, Slice}
use voidwalk.X86.Decoder.Consumes.{
  Consumed, weaken, After, after_done, after_too_long, after_failed, Consumes, Consumes-if,
  Consumes-bind, Consumes-get, Consumes-lift, Consumes-modify, Consumes-pure, NextByte,
  next_byte-NextByte, byte_full, byte_taken, byte_failed,
}
use voidwalk.X86.Decoder.Phases.{
  Consumes-note_prefix, Consumes-read_opcode, Consumes-read_mod_rm, Consumes-take_mandatory,
  Consumes-set_widths, Consumes-read_memory_operand, Consumes-read_three_d_now,
  Consumes-read_immediates,
}

ok_not_err {ℓ} : {A : Type ℓ} {a : A} {e : Error} (r : Result A) → r ≡ ok a → r ≢ err e
ok_not_err r h k = cc

row_of-total :
    (contents : AddressSpace) (offset : ℕ) (is_64bit : Bool) (s : Decoding) (mod_rm : ℕ)
    → (info : OpcodeInfo) × (row_of contents offset is_64bit s mod_rm ≡ ok info)
unfolding row_of
row_of-total contents offset is_64bit s mod_rm =
    let row = resolved_info-total s.fields.opcode mod_rm is_64bit in
    some_if (not (s.simd.vex == 0)) _ _ (_, refl)
      (some_if (s.simd.map == 0) _ _ row (some_if (s.simd.map == 1) _ _ (_, refl) (_, refl)))
  where
    some_if :
        (b : Bool) (m n : Result OpcodeInfo)
        → (info : OpcodeInfo) × (m ≡ ok info)
        → (info : OpcodeInfo) × (n ≡ ok info)
        → (info : OpcodeInfo) × ((if b then m else n) ≡ ok info)
    some_if true m n h k = h
    some_if false m n h k = k

module _ (contents : AddressSpace) (offset least : ℕ) (is_64bit : Bool) where
  Consumes-select_row :
      (mod_rm : ℕ) → Consumes contents offset least (select_row contents offset is_64bit mod_rm)
  unfolding select_row
  Consumes-select_row mod_rm =
      Consumes-bind contents offset least _ _ (Consumes-get contents offset least) (λ s.
        let (info, row) = row_of-total contents offset is_64bit s mod_rm in
        Consumes-bind contents offset least _ _
          (Consumes-lift contents offset least _ (λ e h. elim (ok_not_err _ row h) [ ]))
          (λ _. Consumes-modify contents offset least _))

  Consumes-read_operands :
      (vaddr : ℕ) → Consumes contents offset least (read_operands contents offset is_64bit vaddr)
  unfolding read_operands
  Consumes-read_operands vaddr =
      search
        (
          Consumes-read_mod_rm, Consumes-select_row, Consumes-take_mandatory, Consumes-set_widths,
          Consumes-read_memory_operand, Consumes-read_three_d_now, Consumes-read_immediates,
          Consumes-bind, Consumes-get,
        )
        depth 20

module _ (contents : AddressSpace) (offset : ℕ) {B : Type 0} (f : ℕ → Step B) where
  weaken-After :
      (least : ℕ) (o : Outcome B)
      → After contents offset (suc least) B o
      → After contents offset least B o
  weaken-After least o (after_done a s c) = after_done a s (weaken contents offset least s.bytes c)
  weaken-After least o (after_too_long s c h) =
      after_too_long s (weaken contents offset least s.bytes c) h
  weaken-After least o (after_failed e h) = after_failed e h

  byte_then :
      (least : ℕ) (s : Decoding) (o : Outcome ℕ)
      → Consumed contents offset least s.bytes
      → NextByte contents offset least s o
      → ((b : ℕ) → Consumes contents offset (suc least) (f b))
      → After contents offset least B (and_then o f)
  byte_then least s o c (byte_full h) k = after_too_long s c h
  byte_then least s o c (byte_taken b t d) k = weaken-After least _ ((k b).from t d)
  byte_then least s o c (byte_failed e h) k = after_failed e h

  -- What comes after a byte has one byte more.
  Consumes-byte_then :
      (least : ℕ)
      → ((b : ℕ) → Consumes contents offset (suc least) (f b))
      → Consumes contents offset least (next_byte contents offset >>= f)
  unfolding ◌>>=◌
  Consumes-byte_then least k = record {
    from = λ s c. byte_then least s _ c (next_byte-NextByte contents offset least s c) k;
  }

  first_byte :
      (s : Decoding) (o : Outcome ℕ)
      → length s.bytes ≡ 0
      → NextByte contents offset 0 s o
      → ((b : ℕ) → Consumes contents offset 1 (f b))
      → After contents offset 1 B (and_then o f)
  first_byte s o e (byte_full h) k = elim (absurd e h) [ ]
    where
      absurd : {n : ℕ} → n ≡ 0 → n ≡ 15 → ⊥
      absurd h k = omega arith
  first_byte s o e (byte_taken b t d) k = (k b).from t d
  first_byte s o e (byte_failed x h) k = after_failed x h

module _ (contents : AddressSpace) (offset : ℕ) (is_64bit : Bool) where
  -- The rounds are used up only when more than 15 bytes are.
  Consumes-prefixes :
      (fuel least current : ℕ)
      → 16 ≤ fuel + least
      → Consumes contents offset least (prefixes contents offset is_64bit fuel current)
  unfolding prefixes
  Consumes-prefixes zero least current enough = record {
    from = λ s c. elim (too_many c.at_least c.at_most enough) [ ];
  }
    where
      too_many : {n : ℕ} → least ≤ n → n ≤ 15 → 16 ≤ 0 + least → ⊥
      too_many h k l = omega arith
  Consumes-prefixes (suc fuel) least current enough =
      let again = λ (following : ℕ). Consumes-prefixes fuel (suc least) following (omega arith) in
      Consumes-if contents offset least (is_64bit && (current / 16 == 4)) _ _
        (Consumes-bind contents offset least _ _ (Consumes-modify contents offset least _)
          (λ _. Consumes-byte_then contents offset _ least again))
        (Consumes-if contents offset least (not (is_prefix current)) _ _
          (Consumes-pure contents offset least current)
          (Consumes-bind contents offset least _ _ (Consumes-modify contents offset least _) (λ _.
            Consumes-bind contents offset least _ _
              (Consumes-note_prefix contents offset least is_64bit current)
              (λ _. Consumes-byte_then contents offset _ least again))))

  Consumes-decode_from :
      (vaddr first : ℕ)
      → Consumes contents offset 1 (decode_from contents offset is_64bit vaddr first)
  unfolding decode_from
  Consumes-decode_from vaddr first =
      Consumes-bind contents offset 1 _ _ (Consumes-prefixes 16 1 first (omega arith)) (λ current.
        Consumes-bind contents offset 1 _ _
          (Consumes-read_opcode contents offset 1 is_64bit current)
          (λ goes_on.
            Consumes-if contents offset 1 goes_on _ _
              (Consumes-read_operands contents offset 1 is_64bit vaddr)
              (Consumes-modify contents offset 1 _)))

-- The outcomes of one call: a row of the bytes from the offset on, nothing, or an exception.
pub data Decoded (policy : VectorPolicy) (contents : AddressSpace) (offset : ℕ)
    (store : ChunkStore (Option Instruction))
    : Result (ℕ × ChunkStore (Option Instruction)) → Type 0 where
  appended :
      (row : Instruction)
      → Consumed contents offset 1 row.machine_code
      → Decoded policy contents offset store
          (ok (offset + length row.machine_code, push_back chunk_size policy none store (some row)))
  stopped : Decoded policy contents offset store (ok (offset, store))
  thrown : (IsIntact contents → ⊥) → Decoded policy contents offset store (err file_changed)

module _ (policy : VectorPolicy) (contents : AddressSpace) (offset : ℕ)
    (store : ChunkStore (Option Instruction)) where
  finish-Decoded :
      (o : Outcome Unit)
      → After contents offset 1 Unit o
      → Decoded policy contents offset store (finish policy offset store o)
  unfolding finish emit mark_invalid
  finish-Decoded o (after_done a s c) = appended _ c
  finish-Decoded o (after_too_long s c h) = appended _ c
  finish-Decoded o (after_failed e past_end) = stopped
  finish-Decoded o (after_failed e (cut h)) = thrown h

  nothing-Consumed : Consumed contents offset 0 []
  unfolding Slice
  nothing-Consumed = record {
    at_least = omega arith;
    at_most = omega arith;
    in_file = λ h. omega arith;
    slice = tt;
  }

  -- A call of `decodeLine` for x86 or x86-64 does one of three things, whatever the bytes. It appends
  -- one row and returns the offset after it: the row's bytes are those of the file from the offset
  -- on, 1 to 15 of them, all within the file. Or it appends nothing and returns the offset it was
  -- given. Or it throws FileChanged, which it does not do on an intact file.
  pub decode_line-Decoded :
      (is_64bit : Bool) (vaddr : ℕ)
      → Decoded policy contents offset store
          (decode_line policy contents is_64bit offset vaddr store)
  unfolding decode_line decode_instruction ◌>>=◌
  decode_line-Decoded is_64bit vaddr = finish-Decoded _ (
      first_byte contents offset _ (start is_64bit) _ refl
        (next_byte-NextByte contents offset 0 (start is_64bit) nothing-Consumed)
        (Consumes-decode_from contents offset is_64bit vaddr))
