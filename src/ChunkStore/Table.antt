-- ===== src/ChunkStore/Table.antt =====
-- The block table of src/chunk_store.hpp: once it is reserved, no `push_back` moves it.
use voidwalk.Common.{
  ℕ, ◌+◌, ◌/◌, ◌%◌, ◌<◌, ◌≤◌, ◌==◌, ◌≡◌, refl, List, [], ◌∷◌, length, replicate, arith, ◌∙◌,
  Bool-cases, inl, inr,
}
use voidwalk.ChunkStore.{VectorPolicy, ChunkStore, append_block, reserve_for, push_back}
use voidwalk.ChunkStore.Slots.{div_mono}
use voidwalk.ChunkStore.Invariant.{IsValid, count-push_back, push_back-IsValid, reserve_for-IsValid}

module _ {ℓ} {A : Type ℓ} (c : ℕ) where
  -- The table has room for `n` elements.
  abbrev pub HasRoom : ℕ → ChunkStore A → Type 0
  HasRoom n s = n / c < s.capacity

  module _ (p : VectorPolicy) (initial : A) where
    stays-append_block :
        (s : ChunkStore A) (b : List A)
        → length s.blocks < s.capacity
        → ((append_block p s b).moves ≡ s.moves) × ((append_block p s b).capacity ≡ s.capacity)
    unfolding append_block
    stays-append_block s b h = ground arith

    stays-push_back :
        (s : ChunkStore A) (v : A) (n : ℕ)
        → IsValid c s
        → HasRoom n s
        → s.count < n
        → ((push_back c p initial s v).moves ≡ s.moves)
          × ((push_back c p initial s v).capacity ≡ s.capacity)
    unfolding push_back
    stays-push_back s v n h room l = elim (Bool-cases (s.count % c == 0)) [
      | inl e ↦ rw e (
          stays-append_block s (replicate c initial)
            (ground (arith, h.table, div_mono s.count n c h.positive)))
      | inr e ↦ rw e (refl, refl)
    ]

    -- The writer's run.
    unfoldable pub push_all : ChunkStore A → List A → ChunkStore A
    push_all s [] = s
    push_all s (v ∷ vs) = push_all (push_back c p initial s v) vs

    moves-push_all :
        (vs : List A) (s : ChunkStore A) (n : ℕ)
        → IsValid c s
        → HasRoom n s
        → s.count + length vs ≤ n
        → (push_all s vs).moves ≡ s.moves
    unfolding push_all
    moves-push_all [] s n h room l = refl
    moves-push_all (v ∷ vs) s n h room l =
        let (m, k) = stays-push_back s v n h room (omega arith) in
        moves-push_all vs (push_back c p initial s v) n (push_back-IsValid c initial s h p v)
          (rw k room) (omega (arith, count-push_back c p initial s v))
        ∙ m

    -- After `reserveFor(n)` the table is not moved while the size stays within `n`.
    pub moves-reserve_for :
        (s : ChunkStore A) (vs : List A) (n : ℕ)
        → IsValid c s
        → s.count + length vs ≤ n
        → (push_all (reserve_for c n s) vs).moves ≡ (reserve_for c n s).moves
    moves-reserve_for s vs n h l =
        moves-push_all vs (reserve_for c n s) n (reserve_for-IsValid c n s h) (reserved n s)
          (omega (arith, count-reserve_for n s))
      where
        reserved : (k : ℕ) (t : ChunkStore A) → HasRoom k (reserve_for c k t)
        reserved k t = unfold reserve_for in ground arith

        count-reserve_for : (k : ℕ) (t : ChunkStore A) → (reserve_for c k t).count ≡ t.count
        count-reserve_for k t = unfold reserve_for in ground arith
