-- ===== src/Sweep/Prepared.antt =====
-- Disassembler::decode of src/disassembler/disassembler.cpp before its loop: the stores are emptied and
-- their block tables reserved, which the allocator may refuse.
use voidwalk.Common.{
  ℕ, ◌+◌, ◌/◌, ◌≡◌, ◌⊎◌, inl, inr, refl, sym, ◌∙◌, leb, ◌||◌, Bool, Bool-cases, false, List, Option,
  ok, err, bad_alloc, arith,
}
use voidwalk.AddressSpace.{AddressSpace}
use voidwalk.Arch.{Decoder}
use voidwalk.ChunkStore.{
  ChunkStore, VectorPolicy, chunk_size, clear, reserve_for, reserve, try_reserve_for,
}
use voidwalk.ChunkStore.Invariant.{IsValid, empty_store-IsValid, reserve_for-IsValid}
use voidwalk.Format.Section.{Header}
use voidwalk.Sweep.{
  Disassembler, Run, returned, threw, prepare, reserve_instructions, reserve_addresses,
  total_text_size,
}
use voidwalk.Sweep.Rows.{IsPaired}

module _ {ℓ} {A : Type ℓ} (n : ℕ) (s : ChunkStore A) where
  clear-IsEmpty : IsValid chunk_size (clear s)
  unfolding clear
  clear-IsEmpty =
      let h = empty_store-IsValid {A = A} chunk_size (omega arith) in
      record { positive = h.positive; table = h.table; sizes = h.sizes }

  count-clear : (clear s).count ≡ 0
  unfolding clear
  count-clear = refl

  fresh-IsValid : IsValid chunk_size (reserve_for chunk_size n (clear s))
  fresh-IsValid = reserve_for-IsValid chunk_size n (clear s) clear-IsEmpty

  count-fresh : (reserve_for chunk_size n (clear s)).count ≡ 0
  unfolding reserve_for reserve clear
  count-fresh = ground arith

  no_memory : (b c : Bool) → (b || c) ≡ false → c ≡ false
  no_memory b c h = ground arith

  try_reserve_for-cases :
      (policy : VectorPolicy) (table : ℕ)
      → (try_reserve_for chunk_size policy table n s ≡ ok (reserve_for chunk_size n s))
        ⊎ ((try_reserve_for chunk_size policy table n s ≡ err bad_alloc)
            × (policy.grants table (n / chunk_size + 1) ≡ false))
  unfolding try_reserve_for
  try_reserve_for-cases policy table =
      let blocks = n / chunk_size + 1 in
      elim (Bool-cases (leb blocks s.capacity || policy.grants table blocks)) [
        | inl e ↦ inl (rw e refl)
        | inr e ↦ inr (rw e refl, no_memory (leb blocks s.capacity) _ e)
      ]

module _ (policy : VectorPolicy) (contents : AddressSpace) (decoder : Option Decoder)
    (has_streams : Bool) (stop : ℕ → Bool) where
  -- The blocks that the table of a store is reserved for
  abbrev pub claimed_blocks : List Header → ℕ
  claimed_blocks text =
      total_text_size policy contents decoder has_streams stop text / chunk_size + 1

  -- What is left when the allocator refuses a block table: empty stores, and the count of before
  pub record IsRefused (text : List Header) (before d : Disassembler) : Type 0 where
    pub table : ℕ
    pub refusal : policy.grants table (claimed_blocks text) ≡ false
    pub no_instructions : d.instructions.count ≡ 0
    pub no_addresses : d.addresses.count ≡ 0
    pub kept : d.ready_count ≡ before.ready_count

  pub data Prepared (text : List Header) (before : Disassembler) : Run → Type 0 where
    ready :
        (d : Disassembler)
        → IsPaired d
        → d.instructions.count ≡ 0
        → Prepared text before (returned d)
    refused :
        (d : Disassembler) → IsRefused text before d → Prepared text before (threw d bad_alloc)

  pub prepare-Prepared :
      (text : List Header) (d : Disassembler)
      → Prepared text d (prepare policy contents decoder has_streams stop text d)
  unfolding prepare reserve_instructions reserve_addresses
  prepare-Prepared text d =
      let n = total_text_size policy contents decoder has_streams stop text in
      elim (try_reserve_for-cases n (clear d.instructions) policy 0) [
        | inr (e, none_left) ↦
            rw (prepare, reserve_instructions, e)
              (refused _ (record {
                table = 0;
                refusal = none_left;
                no_instructions = count-clear n d.instructions;
                no_addresses = count-clear n d.addresses;
                kept = refl;
              }))
        | inl e ↦ elim (try_reserve_for-cases n (clear d.addresses) policy 1) [
          | inr (f, none_left) ↦
              rw (prepare, reserve_instructions, e)
                (rw (reserve_addresses, f)
                  (refused _ (record {
                    table = 1;
                    refusal = none_left;
                    no_instructions = count-fresh n d.instructions;
                    no_addresses = count-clear n d.addresses;
                    kept = refl;
                  })))
          | inl f ↦
              rw (prepare, reserve_instructions, e)
                (rw (reserve_addresses, f)
                  (ready _
                    (record {
                      instructions_valid = fresh-IsValid n d.instructions;
                      addresses_valid = fresh-IsValid n d.addresses;
                      same_count = count-fresh n d.addresses ∙ sym (count-fresh n d.instructions);
                      published = sym (count-fresh n d.instructions);
                    })
                    (count-fresh n d.instructions)))
        ]
      ]
