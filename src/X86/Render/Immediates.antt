-- ===== src/X86/Render/Immediates.antt =====
-- The renderer takes as many immediates as the decoder stores: the loops over the operands in
-- src/arch/x86_64/x86_64_decoder.cpp and src/arch/x86_64/x86_64_instruction.hpp.
use Prim.{Unit, tt}
use voidwalk.Common.{
  ℕ, zero, suc, ◌+◌, ◌≤◌, ltb, if◌then◌else◌, Bool, true, false, ◌&&◌, Bool-cases, ◌==◌, inl, inr,
  List, [], ◌∷◌, ◌++◌, length, length-append, Result, ok, err, ◌≡◌, refl, sym, ap, ◌∙◌, arith,
}
use mathlib.Core.Path.{subst}
use voidwalk.AddressSpace.{AddressSpace, read_u8}
use voidwalk.X86.Types.{Addressing, TableOperand, OpcodeInfo, Simd, operands}
use voidwalk.X86.Decoder.Bytes.{
  Fields, Decoding, Outcome, done, too_long, failed, Step, and_then, ◌>>=◌, pure, get, modify,
  next_byte, take_byte, read_little_endian, when, skip,
}
use voidwalk.X86.Decoder.Operands.{
  is_encoded, read_immediate, read_immediates, immediate_value, immediate_bytes,
}
use voidwalk.X86.Render.Encoded.{encoded, imm_index-operand_texts}
use voidwalk.X86.Render.Operand.{operand_texts, operand_list}

-- What a step that returns leaves: so many immediates, and the row
abbrev Stored : {A : Type 0} → ℕ → OpcodeInfo → Outcome A → Type 0
Stored n info (done _ s) = (length s.fields.immediates ≡ n) × (s.fields.info ≡ info)
Stored n info (too_long s) = Unit
Stored n info (failed e) = Unit

abbrev Keeps : {A : Type 0} → Step A → Type 0
Keeps m =
    (s : Decoding) (n : ℕ) (info : OpcodeInfo)
    → (length s.fields.immediates ≡ n) × (s.fields.info ≡ info)
    → Stored n info (m s)

Stored-and_then :
    {A B : Type 0} (n k : ℕ) (info : OpcodeInfo) (o : Outcome A) (f : A → Step B)
    → Stored n info o
    → ((a : A) (s : Decoding)
        → (length s.fields.immediates ≡ n) × (s.fields.info ≡ info)
        → Stored k info (f a s))
    → Stored k info (and_then o f)
Stored-and_then n k info (done a s) f h go = go a s h
Stored-and_then n k info (too_long s) f h go = tt
Stored-and_then n k info (failed e) f h go = tt

take_byte-Stored :
    (s : Decoding) (r : Result ℕ) (n : ℕ) (info : OpcodeInfo)
    → (length s.fields.immediates ≡ n) × (s.fields.info ≡ info)
    → Stored n info (take_byte s r)
unfolding take_byte
take_byte-Stored s (ok b) n info h = h
take_byte-Stored s (err e) n info h = tt

when-Stored :
    (b : Bool) (m : Step Unit) (k : ℕ) (s : Decoding)
    → Stored k s.fields.info (m s)
    → Stored (if b then k else length s.fields.immediates) s.fields.info (when b m s)
unfolding when skip pure
when-Stored true m k s h = h
when-Stored false m k s h = (refl, refl)

append-Stored :
    (stored : ℕ) (s : Decoding) (n : ℕ) (info : OpcodeInfo)
    → (length s.fields.immediates ≡ n) × (s.fields.info ≡ info)
    → Stored (n + 1) info (modify (λ f. record f { immediates = f.immediates ++ stored ∷ [] }) s)
unfolding modify
append-Stored stored s n info (e, row) =
    (length-append s.fields.immediates (stored ∷ []) ∙ ap (λ k. k + 1) e, row)

fits :
    (b : Bool) (n k : ℕ)
    → n + (if b then suc k else k) ≤ 2
    → (if b && ltb n 2 then n + 1 else n) + k ≡ n + (if b then suc k else k)
fits true n k h = ground arith
fits false n k h = refl

-- The switch in immediate_value
by_mode :
    (mode : Addressing) (m k j i : Step ℕ)
    → Keeps m
    → Keeps k
    → Keeps j
    → Keeps i
    → Keeps (elim mode [ Addressing.a ↦ m | Addressing.j ↦ k | Addressing.i ↦ j | _ ↦ i ])
by_mode Addressing.a m k j i hm hk hj hi = hm
by_mode Addressing.j m k j i hm hk hj hi = hk
by_mode Addressing.i m k j i hm hk hj hi = hj
by_mode _ m k j i hm hk hj hi = hi

module _ (contents : AddressSpace) (offset : ℕ) where
  next_byte-Keeps : Keeps (next_byte contents offset)
  unfolding next_byte
  next_byte-Keeps s n info h = elim (Bool-cases (length s.bytes == 15)) [
    | inl e ↦ rw e tt
    | inr e ↦ rw e (take_byte-Stored s (read_u8 contents (offset + length s.bytes)) n info h)
  ]

  read_little_endian-Keeps : (count : ℕ) → Keeps (read_little_endian contents offset count)
  unfolding read_little_endian ◌>>=◌ pure
  read_little_endian-Keeps zero s n info h = h
  read_little_endian-Keeps (suc count) s n info h =
      Stored-and_then n n info (next_byte contents offset s) _ (next_byte-Keeps s n info h)
        (λ b s1 h1.
          Stored-and_then n n info (read_little_endian contents offset count s1) _
            (read_little_endian-Keeps count s1 n info h1) (λ rest s2 h2. h2))

  module _ (is_64bit : Bool) (vaddr : ℕ) where
    immediate_value-Keeps :
        (f : Fields) (consumed : ℕ) (operand : TableOperand) (byte_count value : ℕ)
        → Keeps (immediate_value contents offset is_64bit vaddr f consumed operand byte_count value)
    unfolding immediate_value ◌>>=◌ pure
    immediate_value-Keeps f consumed operand byte_count value =
        by_mode operand.addressing_mode _ _ _ _
          (λ s n info h.
            Stored-and_then n n info (read_little_endian contents offset 2 s) _
              (read_little_endian-Keeps 2 s n info h) (λ rest s2 h2. h2))
          (λ s n info h. h) (λ s n info h. h) (λ s n info h. h)

    -- How many are stored after one more operand, and after several
    abbrev stored_by : ℕ → TableOperand → ℕ
    stored_by n operand = if is_encoded operand.addressing_mode && ltb n 2 then n + 1 else n

    read_immediate-Stored :
        (operand : TableOperand) (s : Decoding)
        → Stored
            (stored_by (length s.fields.immediates) operand)
            s.fields.info
            (read_immediate contents offset is_64bit vaddr operand s)
    unfolding read_immediate ◌>>=◌ get modify
    read_immediate-Stored operand s =
        when-Stored (is_encoded operand.addressing_mode && ltb (length s.fields.immediates) 2) _ _ s
          (let n = length s.fields.immediates in
            let info = s.fields.info in
            let byte_count = immediate_bytes s.fields operand in
            Stored-and_then {B = Unit} n (n + 1) info
              (read_little_endian contents offset byte_count s) _
              (read_little_endian-Keeps byte_count s n info (refl, refl))
              (λ value s1 h1.
                Stored-and_then {B = Unit} n (n + 1) info
                  (immediate_value contents offset is_64bit vaddr s.fields (length s1.bytes) operand
                    byte_count value s1)
                  _
                  (immediate_value-Keeps s.fields (length s1.bytes) operand byte_count value s1 n
                    info h1)
                  (λ stored s2 h2. append-Stored stored s2 n info h2)))

    abbrev stored_after : ℕ → List TableOperand → ℕ
    stored_after n [] = n
    stored_after n (operand ∷ rest) = stored_after (stored_by n operand) rest

    read_immediates-Stored :
        (list : List TableOperand) (s : Decoding) (n : ℕ) (info : OpcodeInfo)
        → (length s.fields.immediates ≡ n) × (s.fields.info ≡ info)
        → Stored (stored_after n list) info (read_immediates contents offset is_64bit vaddr list s)
    unfolding read_immediates ◌>>=◌ skip pure
    read_immediates-Stored [] s n info h = h
    read_immediates-Stored (operand ∷ rest) s n info (e, row) =
        Stored-and_then (stored_by n operand) _ info
          (read_immediate contents offset is_64bit vaddr operand s) _
          (rw (sym e) (rw (sym row) (read_immediate-Stored operand s)))
          (λ _ s1 h1. read_immediates-Stored rest s1 (stored_by n operand) info h1)

    stored_after-encoded :
        (list : List TableOperand) (n : ℕ)
        → n + encoded list ≤ 2
        → stored_after n list ≡ n + encoded list
    unfolding encoded
    stored_after-encoded [] n h = omega arith
    stored_after-encoded (operand ∷ rest) n h =
        let all_fit = fits (is_encoded operand.addressing_mode) n (encoded rest) h in
        stored_after-encoded rest (stored_by n operand) (rw all_fit h) ∙ all_fit

    -- When the loop has returned, the renderer finds an immediate for every operand that takes one,
    -- if the row has at most two.
    pub imm_index-read_immediates :
        (s after : Decoding) (simd : Simd)
        → s.fields.immediates ≡ []
        → encoded (operands s.fields.info) ≤ 2
        → read_immediates contents offset is_64bit vaddr (operands s.fields.info) s ≡ done tt after
        → (operand_texts after.fields simd (operand_list after.fields)).imm_index
          ≤ length after.fields.immediates
    imm_index-read_immediates s after simd none_yet few e =
        let info = s.fields.info in
        let total = stored_after 0 (operands info) in
        let (count, row) : (length after.fields.immediates ≡ total) × (after.fields.info ≡ info) =
          subst (Stored total info) e
            (read_immediates-Stored (operands info) s 0 info (ap length none_yet, refl)) in
        rw count (
          rw (stored_after-encoded (operands info) 0 (omega (arith, few))) (
            subst
              (λ i.
                (operand_texts after.fields simd (operand_list after.fields)).imm_index
                ≤ 0 + encoded (operands i))
              row (omega (arith, imm_index-operand_texts after.fields simd))))
