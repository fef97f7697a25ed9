-- ===== src/ChunkStore/Invariant.antt =====
-- The shape that every operation of src/chunk_store.hpp keeps.
use voidwalk.Common.{
  ℕ, suc, ◌+◌, ◌/◌, ◌%◌, ◌<◌, leb, ◌==◌, if◌then◌else◌, ◌≡◌, List, [], ◌∷◌, ◌++◌, length, replicate,
  All, arith, ◌∙◌, All-append, length-replicate, length-append, Bool-cases, inl, inr,
}
use native.Mathlib.Nat.{mod-lt, zero-div, zero-mod}
use native.Mathlib.Decide.{ℕ_discrete}
use voidwalk.ChunkStore.{
  VectorPolicy, ChunkStore, empty_store, write_last, append_block, clear, shrink_to_fit,
  reserve_for, push_back,
}
use voidwalk.ChunkStore.Slots.{
  div_suc_inside, mod_suc_inside, div_suc_full, mod_suc_full, length-set, length-write_last,
}

-- The number of blocks that `n` elements fill, the last one perhaps in part.
abbrev pub blocks_for : ℕ → ℕ → ℕ
blocks_for chunk n = if n % chunk == 0 then n / chunk else suc (n / chunk)

-- The table holds as many blocks as the elements need, all of the same size.
pub record IsValid {ℓ} {A : Type ℓ} (chunk : ℕ) (s : ChunkStore A) : Type 0 where
  pub positive : 0 < chunk
  pub table : length s.blocks ≡ blocks_for chunk s.count
  pub sizes : All (λ b. length b ≡ chunk) s.blocks

blocks_for-suc' :
    (c n : ℕ)
    → 0 < c
    → blocks_for c (suc n) ≡ (if n % c == 0 then suc (blocks_for c n) else blocks_for c n)
blocks_for-suc' c n h = elim (ℕ_discrete (suc (n % c)) c) [
  | yes full ↦ ground (arith, div_suc_full n c full, mod_suc_full n c full)
  | no room ↦
      let inside : suc (n % c) < c = omega (arith, mod-lt n h) in
      ground (arith, div_suc_inside n c inside, mod_suc_inside n c inside)
]

pub blocks_for-suc : (c n : ℕ) → 0 < c → blocks_for c (suc n) ≡ suc (n / c)
blocks_for-suc c n h = elim (ℕ_discrete (suc (n % c)) c) [
  | yes full ↦ ground (arith, div_suc_full n c full, mod_suc_full n c full)
  | no room ↦
      let inside : suc (n % c) < c = omega (arith, mod-lt n h) in
      ground (arith, div_suc_inside n c inside, mod_suc_inside n c inside)
]

module _ {ℓ} {A : Type ℓ} where
  sizes-write_last :
      (c : ℕ) (bs : List (List A)) (k : ℕ) (v : A)
      → All (λ b. length b ≡ c) bs
      → All (λ b. length b ≡ c) (write_last bs k v)
  unfolding write_last
  sizes-write_last c [] k v h = h
  sizes-write_last c (b ∷ []) k v (h, t) = (length-set b k v ∙ h, t)
  sizes-write_last c (b ∷ b' ∷ r) k v (h, t) = (h, sizes-write_last c (b' ∷ r) k v t)

  blocks-append_block :
      (p : VectorPolicy) (s : ChunkStore A) (b : List A)
      → (append_block p s b).blocks ≡ s.blocks ++ b ∷ []
  unfolding append_block
  blocks-append_block p s b = ground arith

  count-append_block :
      (p : VectorPolicy) (s : ChunkStore A) (b : List A) → (append_block p s b).count ≡ s.count
  unfolding append_block
  count-append_block p s b = ground arith

  -- The table before the write of `push_back`.
  abbrev pub grown_blocks : ℕ → A → ChunkStore A → List (List A)
  grown_blocks c initial s =
      if s.count % c == 0 then s.blocks ++ replicate c initial ∷ [] else s.blocks

  pub blocks-push_back :
      (c : ℕ) (p : VectorPolicy) (initial : A) (s : ChunkStore A) (v : A)
      → (push_back c p initial s v).blocks ≡ write_last (grown_blocks c initial s) (s.count % c) v
  unfolding push_back
  blocks-push_back c p initial s v = ground (arith, blocks-append_block p s (replicate c initial))

  pub count-push_back :
      (c : ℕ) (p : VectorPolicy) (initial : A) (s : ChunkStore A) (v : A)
      → (push_back c p initial s v).count ≡ suc s.count
  unfolding push_back
  count-push_back c p initial s v = ground (arith, count-append_block p s (replicate c initial))

  module _ (c : ℕ) (initial : A) (s : ChunkStore A) (h : IsValid c s) where
    pub length-grown : length (grown_blocks c initial s) ≡ blocks_for c (suc s.count)
    length-grown = ground (
      arith,
      h.table,
      blocks_for-suc' c s.count h.positive,
      length-append s.blocks (replicate c initial ∷ []),
    )

    pub sizes-grown : All (λ b. length b ≡ c) (grown_blocks c initial s)
    sizes-grown = elim (Bool-cases (s.count % c == 0)) [
      | inl e ↦ rw e (All-append _ s.blocks _ h.sizes (length-replicate c initial, tt))
      | inr e ↦ rw e h.sizes
    ]

    -- `push_back` keeps the store valid: one block for every `chunk` elements begun, each of `chunk`
    -- slots. The store was valid before.
    pub push_back-IsValid : (p : VectorPolicy) (v : A) → IsValid c (push_back c p initial s v)
    push_back-IsValid p v = record {
      positive = h.positive;
      table = rw (blocks-push_back, count-push_back, length-write_last) length-grown;
      sizes = rw blocks-push_back (sizes-write_last c _ _ v sizes-grown);
    }

module _ {ℓ} {A : Type ℓ} where
  pub empty_store-IsValid : (c : ℕ) → 0 < c → IsValid c (empty_store {A = A})
  empty_store-IsValid c h = record {
    positive = h;
    table = ground (arith, zero-div c, zero-mod c);
    sizes = tt;
  }

  pub clear-IsValid : (c : ℕ) (s : ChunkStore A) → IsValid c s → IsValid c (clear s)
  unfolding clear
  clear-IsValid c s h = record {
    positive = h.positive;
    table = ground (arith, zero-div c, zero-mod c);
    sizes = tt;
  }

  pub reserve_for-IsValid :
      (c n : ℕ) (s : ChunkStore A) → IsValid c s → IsValid c (reserve_for c n s)
  unfolding reserve_for
  reserve_for-IsValid c n s h = elim (Bool-cases (leb (n / c + 1) s.capacity)) [
    | inl e ↦ rw e h
    | inr e ↦ rw e (record { positive = h.positive; table = h.table; sizes = h.sizes })
  ]

  pub shrink_to_fit-IsValid :
      (c : ℕ) (p : VectorPolicy) (s : ChunkStore A) → IsValid c s → IsValid c (shrink_to_fit p s)
  unfolding shrink_to_fit
  shrink_to_fit-IsValid c p s h = record { positive = h.positive; table = h.table; sizes = h.sizes }
