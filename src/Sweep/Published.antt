-- ===== src/Sweep/Published.antt =====
-- What a reader of a Disassembler finds after `decode` of src/disassembler/disassembler.cpp, however it
-- ended.
use voidwalk.Common.{
  ℕ, suc, ◌-◌, ◌≡◌, refl, ◌⊎◌, inl, inr, Bool, List, [], ◌∷◌, Option, add64, bad_alloc,
}
use voidwalk.AddressSpace.{AddressSpace}
use voidwalk.Arch.{Decoder}
use voidwalk.ChunkStore.{VectorPolicy}
use voidwalk.Format.Section.{Header}
use voidwalk.Sweep.{
  Disassembler, Run, returned, threw, state_of, after, sweep_section, sweep_sections, decode,
  prepare,
}
use voidwalk.Sweep.Rows.{IsPaired}
use voidwalk.Sweep.Tiling.{sweep-Swept}
use voidwalk.Sweep.Prepared.{IsRefused, Prepared, ready, refused, prepare-Prepared}

module _ (policy : VectorPolicy) (contents : AddressSpace) (decoder : Option Decoder)
    (has_streams : Bool) (stop : ℕ → Bool) where
  -- `decode` threw because the allocator refused a block table.
  abbrev pub GaveUp : List Header → Disassembler → Run → Type 0
  GaveUp text before r =
      (d : Disassembler) × (r ≡ threw d bad_alloc)
      × IsRefused policy contents decoder has_streams stop text before d

  -- What holds of every run that got its tables holds of `decode`, unless it gave up.
  pub decode-Prepared :
      (P : Disassembler → Type 0) (text : List Header) (before : Disassembler) (r : Run)
      (next : Disassembler → Run)
      → Prepared policy contents decoder has_streams stop text before r
      → ((d : Disassembler) → IsPaired d → d.instructions.count ≡ 0 → P (state_of (next d)))
      → P (state_of (after r next)) ⊎ GaveUp text before (after r next)
  decode-Prepared P text before r next (ready d paired none_yet) k = inl (k d paired none_yet)
  decode-Prepared P text before r next (refused d h) k = inr (d, refl, h)

  IsPaired-after :
      (r : Run) (next : Disassembler → Run)
      → IsPaired (state_of r)
      → ((d : Disassembler) → IsPaired d → IsPaired (state_of (next d)))
      → IsPaired (state_of (after r next))
  IsPaired-after (returned d) next p k = k d p
  IsPaired-after (threw d e) next p k = p

  sweep_sections-IsPaired :
      (text : List Header) (d : Disassembler)
      → IsPaired d
      → IsPaired (state_of (sweep_sections policy contents decoder has_streams stop text d))
  unfolding sweep_sections sweep_section
  sweep_sections-IsPaired [] d p = p
  sweep_sections-IsPaired (h ∷ rest) d p =
      let end = add64 h.offset h.size in
      let swept =
        sweep-Swept policy contents decoder has_streams stop (suc (end - h.offset)) h.offset end
          h.vaddr d p in
      IsPaired-after (sweep_section policy contents decoder has_streams stop h d)
        (sweep_sections policy contents decoder has_streams stop rest) swept.paired
        (sweep_sections-IsPaired rest)

  -- After `decode`, whatever was in the object before, whether it returned, was stopped or threw: both
  -- stores are valid, there is an address for every instruction, and the published count is their
  -- length. The one other end is that the allocator refused a block table for the claimed sum of the
  -- sizes: then `decode` threw bad_alloc, both stores are empty, and the published count is the one of
  -- before.
  pub decode-IsPaired :
      (text : List Header) (d : Disassembler)
      → IsPaired (state_of (decode policy contents decoder has_streams stop text d))
        ⊎ GaveUp text d (decode policy contents decoder has_streams stop text d)
  unfolding decode
  decode-IsPaired text d =
      decode-Prepared IsPaired text d (prepare policy contents decoder has_streams stop text d)
        (sweep_sections policy contents decoder has_streams stop text)
        (prepare-Prepared policy contents decoder has_streams stop text d)
        (λ t paired _. sweep_sections-IsPaired text t paired)
