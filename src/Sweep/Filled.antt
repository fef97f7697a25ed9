-- ===== src/Sweep/Filled.antt =====
-- Every slot below the count of a decoded binary holds an instruction: src/disassembler/disassembler.cpp
-- hands out no null pointer.
use voidwalk.Common.{
  ℕ, zero, suc, ◌+◌, ◌-◌, ◌<◌, ◌≡◌, refl, sym, ap, ◌⊎◌, ◌∙◌, Bool, List, [], ◌∷◌, ◌++◌, map,
  get_elem?, Option, some, add64, arith,
}
use voidwalk.AddressSpace.{AddressSpace}
use voidwalk.Arch.{Decoder}
use voidwalk.ChunkStore.{ChunkStore, VectorPolicy, chunk_size, index, iterate, elements}
use voidwalk.Format.Section.{Header}
use voidwalk.X86.Decoder.{Instruction}
use voidwalk.Sweep.{
  Disassembler, Run, returned, threw, state_of, after, sweep_section, sweep_sections, decode,
  prepare,
}
use voidwalk.Sweep.Rows.{IsPaired}
use voidwalk.Sweep.Tiling.{sweep-Swept}
use voidwalk.Sweep.Prepared.{prepare-Prepared}
use voidwalk.Sweep.Published.{GaveUp, decode-Prepared}

-- The instructions of the store, in order
pub record IsFilled (d : Disassembler) : Type 0 where
  pub rows : List Instruction
  pub elements_are : elements chunk_size d.instructions ≡ map (λ row. some (some row)) rows
  pub paired : IsPaired d

no_rounds : {n : ℕ} → n < 0 → ⊥
no_rounds h = omega arith

map_append {ℓ κ} :
    {A : Type ℓ} {B : Type κ} (f : A → B) (xs ys : List A) → map f (xs ++ ys) ≡ map f xs ++ map f ys
map_append f [] ys = refl
map_append f (x ∷ xs) ys = ap (◌∷◌ (f x)) (map_append f xs ys)

module _ {ℓ} {A : Type ℓ} (c : ℕ) (s : ChunkStore A) where
  get-iterate : (n i k : ℕ) → k < n → get_elem? (iterate c s i n) k ≡ some (index c s (i + k))
  unfolding iterate
  get-iterate zero i k h = elim (no_rounds h) [ ]
  get-iterate (suc n) i zero h = ap (λ j. some (index c s j)) (omega arith)
  get-iterate (suc n) i (suc k) h =
      get-iterate n (suc i) k (omega arith) ∙ ap (λ j. some (index c s j)) (omega arith)

  pub get-elements : (k : ℕ) → k < s.count → get_elem? (elements c s) k ≡ some (index c s k)
  unfolding elements
  get-elements k h = get-iterate s.count 0 k h ∙ ap (λ j. some (index c s j)) (omega arith)

elements-none {ℓ} : {A : Type ℓ} (c : ℕ) (s : ChunkStore A) → s.count ≡ 0 → elements c s ≡ []
unfolding elements iterate
elements-none c s h = rw h refl

get-map :
    (rows : List Instruction) (k : ℕ) (found : Option (Option Instruction))
    → get_elem? (map (λ row. some (some row)) rows) k ≡ some found
    → (row : Instruction) × (get_elem? rows k ≡ some row) × (found ≡ some (some row))
get-map [] k found h = cc
get-map (row ∷ rows) zero found h = (row, refl, cc)
get-map (row ∷ rows) (suc k) found h = get-map rows k found h

-- The slot of a row that is counted
pub index-IsFilled :
    (d : Disassembler) (f : IsFilled d) (i : ℕ)
    → i < d.instructions.count
    → (row : Instruction) × (get_elem? f.rows i ≡ some row)
      × (index chunk_size d.instructions i ≡ some (some row))
index-IsFilled d f i h =
    get-map f.rows i _
      (ap (λ xs. get_elem? xs i) (sym f.elements_are) ∙ get-elements chunk_size d.instructions i h)

module _ (policy : VectorPolicy) (contents : AddressSpace) (decoder : Option Decoder)
    (has_streams : Bool) (stop : ℕ → Bool) where
  IsFilled-after :
      (r : Run) (next : Disassembler → Run)
      → IsFilled (state_of r)
      → ((d : Disassembler) → IsFilled d → IsFilled (state_of (next d)))
      → IsFilled (state_of (after r next))
  IsFilled-after (returned d) next p k = k d p
  IsFilled-after (threw d e) next p k = p

  sweep_sections-IsFilled :
      (text : List Header) (d : Disassembler)
      → IsFilled d
      → IsFilled (state_of (sweep_sections policy contents decoder has_streams stop text d))
  unfolding sweep_sections sweep_section
  sweep_sections-IsFilled [] d p = p
  sweep_sections-IsFilled (h ∷ rest) d p =
      let end = add64 h.offset h.size in
      let swept =
        sweep-Swept policy contents decoder has_streams stop (suc (end - h.offset)) h.offset end
          h.vaddr d p.paired in
      IsFilled-after (sweep_section policy contents decoder has_streams stop h d)
        (sweep_sections policy contents decoder has_streams stop rest)
        (record {
          rows = p.rows ++ swept.rows;
          elements_are =
              swept.instructions_added
              ∙ ap (λ xs. xs ++ map (λ row. some (some row)) swept.rows) p.elements_are
              ∙ sym (map_append (λ row. some (some row)) p.rows swept.rows);
          paired = swept.paired;
        })
        (sweep_sections-IsFilled rest)

  prepared-IsFilled : (d : Disassembler) → IsPaired d → d.instructions.count ≡ 0 → IsFilled d
  prepared-IsFilled d paired none_yet = record {
    rows = [];
    elements_are = elements-none chunk_size d.instructions none_yet;
    paired = paired;
  }

  -- After decode, however it ended, every position of the instruction store has an instruction, and the
  -- rows are paired with their addresses. The one other end is that the allocator refused a block table
  -- for the claimed sum of the sizes: then decode threw bad_alloc, both stores are empty, and the
  -- published count is the one of before.
  pub decode-IsFilled :
      (text : List Header) (d : Disassembler)
      → IsFilled (state_of (decode policy contents decoder has_streams stop text d))
        ⊎ GaveUp policy contents decoder has_streams stop text d
            (decode policy contents decoder has_streams stop text d)
  unfolding decode
  decode-IsFilled text d =
      decode-Prepared policy contents decoder has_streams stop IsFilled text d
        (prepare policy contents decoder has_streams stop text d)
        (sweep_sections policy contents decoder has_streams stop text)
        (prepare-Prepared policy contents decoder has_streams stop text d)
        (λ t paired none_yet. sweep_sections-IsFilled text t (prepared-IsFilled t paired none_yet))
