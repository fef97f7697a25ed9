-- ===== src/ChunkStore.antt =====
-- src/chunk_store.hpp: the append-only sequence in fixed-size blocks that the decode worker fills
-- while a frontend reads it.
pub mod Slots
pub mod Invariant
pub mod Contents
pub mod Table
use voidwalk.Common.{
  ℕ, zero, suc, ◌+◌, ◌-◌, ◌/◌, ◌%◌, ltb, leb, ◌==◌, if◌then◌else◌, Bool, ◌||◌, Result, ok, err,
  bad_alloc, Option, none, some, List, [], ◌∷◌, ◌++◌, length, get_elem?, replicate,
}

-- What `std::vector` and the allocator are free to choose: the capacity that a growing table of `n`
-- blocks takes, the capacity that `shrink_to_fit` leaves a table of `n` blocks with, and whether
-- `reserve` gets the memory for `n` blocks, by the number of the table that a sweep reserves.
pub record VectorPolicy : Type 0 where
  pub grown : ℕ → ℕ
  pub shrunk : ℕ → ℕ → ℕ
  pub grants : ℕ → ℕ → Bool

-- `blocks_` with the capacity of its buffer, and `size_`. `moves` counts the times that the block
-- table was reallocated, which is what a concurrent reader cannot survive.
pub record ChunkStore {ℓ} (A : Type ℓ) : Type ℓ where
  pub blocks : List (List A)
  pub capacity : ℕ
  pub count : ℕ
  pub moves : ℕ

module _ {ℓ} {A : Type ℓ} where
  abbrev pub empty_store : ChunkStore A
  empty_store = record { blocks = []; capacity = 0; count = 0; moves = 0 }

  -- A write in an array.
  unfoldable pub set : List A → ℕ → A → List A
  set [] i v = []
  set (x ∷ xs) zero v = v ∷ xs
  set (x ∷ xs) (suc i) v = x ∷ set xs i v

  -- `(*blocks_.back())[slot] = value`
  unfoldable pub write_last : List (List A) → ℕ → A → List (List A)
  unfolding set
  write_last [] slot v = []
  write_last (b ∷ []) slot v = set b slot v ∷ []
  write_last (b ∷ c ∷ rest) slot v = b ∷ write_last (c ∷ rest) slot v

  -- `blocks_.push_back` moves the table only when its capacity is used up.
  unfoldable pub append_block : VectorPolicy → ChunkStore A → List A → ChunkStore A
  append_block policy s block =
      let n = length s.blocks in
      if ltb n s.capacity then record s { blocks = s.blocks ++ block ∷ [] } else record s {
        blocks = s.blocks ++ block ∷ [];
        capacity = policy.grown (suc n);
        moves = suc s.moves;
      }

  -- `blocks_.reserve(n)`, when the allocator grants the memory
  unfoldable pub reserve : ℕ → ChunkStore A → ChunkStore A
  reserve n s = if leb n s.capacity then s else record s { capacity = n; moves = suc s.moves }

  unfoldable pub size : ChunkStore A → ℕ
  size s = s.count

  unfoldable pub empty : ChunkStore A → Bool
  empty s = s.count == 0

  -- `clear` keeps the capacity of the table.
  unfoldable pub clear : ChunkStore A → ChunkStore A
  clear s = record s { blocks = []; count = 0 }

  unfoldable pub shrink_to_fit : VectorPolicy → ChunkStore A → ChunkStore A
  shrink_to_fit policy s = record s {
    capacity = policy.shrunk (length s.blocks) s.capacity;
    moves = suc s.moves;
  }

-- The template's default ChunkSize
abbrev pub chunk_size : ℕ
chunk_size = 8192

-- `chunk` is the template's ChunkSize and `initial` a value-initialised element of a new block.
module _ {ℓ} {A : Type ℓ} (chunk : ℕ) where
  unfoldable pub reserve_for : ℕ → ChunkStore A → ChunkStore A
  unfolding reserve
  reserve_for max_elements = reserve (max_elements / chunk + 1)

  -- `reserveFor`, for the table of the given number: only a table that has to grow asks the allocator.
  unfoldable pub try_reserve_for : VectorPolicy → ℕ → ℕ → ChunkStore A → Result (ChunkStore A)
  unfolding reserve_for
  try_reserve_for policy table max_elements s =
      let n = max_elements / chunk + 1 in
      if leb n s.capacity || policy.grants table n
      then ok (reserve_for max_elements s)
      else err bad_alloc

  unfoldable pub push_back : VectorPolicy → A → ChunkStore A → A → ChunkStore A
  unfolding append_block write_last
  push_back policy initial s v =
      let slot = s.count % chunk in
      let t = if slot == 0 then append_block policy s (replicate chunk initial) else s in
      record t { blocks = write_last t.blocks slot v; count = suc t.count }

  -- `operator[]`; `none` is an access outside the blocks.
  unfoldable pub index : ChunkStore A → ℕ → Option A
  index s i = elim (get_elem? s.blocks (i / chunk)) [
    | none ↦ none
    | some block ↦ get_elem? block (i % chunk)
  ]

  unfoldable pub front : ChunkStore A → Option A
  unfolding index
  front s = index s 0

  unfoldable pub back : ChunkStore A → Option A
  unfolding index
  back s = index s (s.count - 1)

  -- What `begin()` to `end()` visits: the positions from `i` on, `n` of them.
  unfoldable pub iterate : ChunkStore A → ℕ → ℕ → List (Option A)
  unfolding index
  iterate s i zero = []
  iterate s i (suc n) = index s i ∷ iterate s (suc i) n

  unfoldable pub elements : ChunkStore A → List (Option A)
  unfolding iterate
  elements s = iterate s 0 s.count
