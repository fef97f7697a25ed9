-- ===== src/ChunkStore/Contents.antt =====
-- The sequence that a store stands for: `operator[]`, iteration and `push_back` of
-- src/chunk_store.hpp against a plain list.
use voidwalk.Common.{
  ℕ, zero, suc, ◌+◌, ◌/◌, ◌%◌, ◌<◌, ◌≤◌, ◌==◌, ◌≡◌, refl, some, List, [], ◌∷◌, ◌++◌, length,
  get_elem?, All, arith, sym, ◌∙◌, ap, ◌-◌, Bool-cases, inl, inr,
}
use mathlib.Core.Path.{ap₂}
use native.Mathlib.Nat.{mod-lt}
use native.Mathlib.Decide.{ℕ_discrete}
use voidwalk.ChunkStore.{VectorPolicy, ChunkStore, clear, push_back, index, iterate, elements, back}
use voidwalk.ChunkStore.Slots.{
  position-eq, div_mono, get-set_self, get-set_ne, get-write_last_before, get-write_last_at,
}
use voidwalk.ChunkStore.Invariant.{
  IsValid, blocks_for, blocks_for-suc, grown_blocks, length-grown, sizes-grown, blocks-push_back,
  count-push_back,
}

module _ {ℓ} {A : Type ℓ} where
  -- A block that the table holds.
  get-block :
      (c : ℕ) (bs : List (List A)) (j : ℕ)
      → All (λ b. length b ≡ c) bs
      → j < length bs
      → (b : List A) × (get_elem? bs j ≡ some b) × (length b ≡ c)
  get-block c [] j h l = absurd (omega arith)
  get-block c (b ∷ bs) zero (h, t) l = (b, refl, h)
  get-block c (b ∷ bs) (suc j) (h, t) l = get-block c bs j t (omega arith)

  get-append_before :
      (xs ys : List (List A)) (j : ℕ) → j < length xs → get_elem? (xs ++ ys) j ≡ get_elem? xs j
  get-append_before [] ys j l = absurd (omega arith)
  get-append_before (x ∷ xs) ys zero l = refl
  get-append_before (x ∷ xs) ys (suc j) l = get-append_before xs ys j (omega arith)

  get_elem-some : (xs : List A) (i : ℕ) → i < length xs → (x : A) × (get_elem? xs i ≡ some x)
  get_elem-some [] i l = absurd (omega arith)
  get_elem-some (x ∷ xs) zero l = (x, refl)
  get_elem-some (x ∷ xs) (suc i) l = get_elem-some xs i (omega arith)

  index_at :
      (c : ℕ) (s : ChunkStore A) (i : ℕ) {b : List A}
      → get_elem? s.blocks (i / c) ≡ some b
      → index c s i ≡ get_elem? b (i % c)
  unfolding index
  index_at c s i e = ground arith

  -- The block of a position below the size is in the table.
  div-lt-length :
      (c : ℕ) (s : ChunkStore A) (i : ℕ) → IsValid c s → i < s.count → i / c < length s.blocks
  div-lt-length c s i h l =
      let e : s.count ≡ suc (s.count - 1) = omega arith in
      let k : length s.blocks ≡ suc ((s.count - 1) / c) =
        h.table ∙ ap (blocks_for c) e ∙ (blocks_for-suc c (s.count - 1) h.positive) in
      omega (arith, div_mono i (s.count - 1) c h.positive (omega arith), k)

  -- No position below the size is outside the blocks.
  pub index-some :
      (c : ℕ) (s : ChunkStore A) (i : ℕ)
      → IsValid c s
      → i < s.count
      → (x : A) × (index c s i ≡ some x)
  index-some c s i h l =
      let (b, e, hb) = get-block c s.blocks (i / c) h.sizes (div-lt-length c s i h l) in
      let (x, e') = get_elem-some b (i % c) (omega (arith, mod-lt i h.positive, hb)) in
      (x, index_at c s i e ∙ e')

module _ {ℓ} {A : Type ℓ} (c : ℕ) (p : VectorPolicy) (initial : A) (s : ChunkStore A)
    (h : IsValid c s) where
  -- The last block of the grown table, where `push_back` writes.
  length-grown_count : length (grown_blocks c initial s) ≡ suc (s.count / c)
  length-grown_count = length-grown c initial s h ∙ blocks_for-suc c s.count h.positive

  -- What `push_back` wrote is at the position that was the size.
  index-push_back_self : (v : A) → index c (push_back c p initial s v) s.count ≡ some v
  index-push_back_self v =
      let (b, e, hb) =
        get-block c (grown_blocks c initial s) (s.count / c) (sizes-grown c initial s h)
          (omega (arith, length-grown_count)) in
      index_at c (push_back c p initial s v) s.count
        (rw blocks-push_back (get-write_last_at _ _ _ v (sym length-grown_count) e))
      ∙ get-set_self b (s.count % c) v (omega (arith, mod-lt s.count h.positive, hb))

  get-grown :
      (j : ℕ) → j < length s.blocks → get_elem? (grown_blocks c initial s) j ≡ get_elem? s.blocks j
  get-grown j l = elim (Bool-cases (s.count % c == 0)) [
    | inl e ↦ rw e (get-append_before s.blocks _ j l)
    | inr e ↦ rw e
  ]

  -- `push_back` leaves every element that a reader may look at where and what it was.
  index-push_back_before :
      (v : A) (i : ℕ) → i < s.count → index c (push_back c p initial s v) i ≡ index c s i
  index-push_back_before v i l =
      let inside = div-lt-length c s i h l in
      let (b, e, hb) = get-block c s.blocks (i / c) h.sizes inside in
      let e' = get-grown (i / c) inside ∙ e in
      elim (ℕ_discrete (i / c) (s.count / c)) [
        | yes same ↦
            index_at c (push_back c p initial s v) i (
              rw blocks-push_back
                (get-write_last_at _ _ _ v (ap suc same ∙ sym length-grown_count) e'))
            ∙ get-set_ne b (s.count % c) (i % c) v
                (λ q. absurd (omega (arith, position-eq i s.count c same (sym q))))
            ∙ sym (index_at c s i e)
        | no other ↦
            index_at c (push_back c p initial s v) i (
              rw blocks-push_back (
                get-write_last_before _ _ _ v
                  (omega (arith, div_mono i s.count c h.positive (omega arith), length-grown_count))
                ∙ e'))
            ∙ sym (index_at c s i e)
      ]

  iterate-push_back :
      (v : A) (i n : ℕ)
      → i + n ≤ s.count
      → iterate c (push_back c p initial s v) i n ≡ iterate c s i n
  unfolding iterate
  iterate-push_back v i zero l = refl
  iterate-push_back v i (suc n) l =
      ap₂ ◌∷◌ (index-push_back_before v i (omega arith))
        (iterate-push_back v (suc i) n (omega arith))

module _ {ℓ} {A : Type ℓ} (c : ℕ) where
  iterate-suc :
      (s : ChunkStore A) (i n : ℕ)
      → iterate c s i (suc n) ≡ iterate c s i n ++ index c s (i + n) ∷ []
  unfolding iterate
  iterate-suc s i zero = let e : i + 0 ≡ i = omega arith in rw e
  iterate-suc s i (suc n) =
      let e : suc i + n ≡ i + suc n = omega arith in
      ap (◌∷◌ (index c s i)) (rw (← e) (iterate-suc s (suc i) n))

  -- Iteration after `push_back` visits what it visited before and then the new element.
  pub elements-push_back :
      (p : VectorPolicy) (initial : A) (s : ChunkStore A)
      → IsValid c s
      → (v : A) → elements c (push_back c p initial s v) ≡ elements c s ++ some v ∷ []
  unfolding elements
  elements-push_back p initial s h v =
      rw (count-push_back, iterate-suc)
        (ap₂ (λ xs x. xs ++ x ∷ []) (iterate-push_back c p initial s h v 0 s.count (omega arith))
          (let e : 0 + s.count ≡ s.count = omega arith in
            rw e (index-push_back_self c p initial s h v)))

  pub elements-clear : (s : ChunkStore A) → elements c (clear s) ≡ []
  unfolding elements iterate clear
  elements-clear s = refl

  -- `back` after `push_back` is the element pushed.
  back-push_back :
      (p : VectorPolicy) (initial : A) (s : ChunkStore A)
      → IsValid c s
      → (v : A) → back c (push_back c p initial s v) ≡ some v
  unfolding back
  back-push_back p initial s h v =
      let e : suc s.count - 1 ≡ s.count = omega arith in
      rw (count-push_back, e) (index-push_back_self c p initial s h v)
