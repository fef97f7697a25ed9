-- ===== src/Examples.antt =====
-- Tests and runs of the theorems on small inputs.
mod Images
mod Formats
mod Decoding
mod Rendering
mod Frontends
mod Sweeping
use voidwalk.Common.{
  ℕ, ltb, zero, suc, ◌+◌, ◌*◌, ◌^◌, ◌<◌, ◌≤◌, ◌≡◌, refl, if◌then◌else◌, List, [], ◌∷◌, ◌++◌, length,
  Option, none, some, Result, ok, err, ◌>>=◌, arith,
}
use Images.{four, four-IsIntact}
use voidwalk.AddressSpace.{AddressSpace, load, read_type, invalid_offset}
use voidwalk.AddressSpace.Reads.{read_inside, read_outside, read_type_split}
use voidwalk.ChunkStore.{
  ChunkStore, VectorPolicy, empty_store, push_back, index, elements, back, reserve_for,
}
use voidwalk.ChunkStore.Invariant.{IsValid, empty_store-IsValid, push_back-IsValid}
use voidwalk.ChunkStore.Contents.{elements-push_back}
use voidwalk.ChunkStore.Table.{push_all, moves-reserve_for}

-- src/address_space.hpp
read_inside_example :
    (v : ℕ) × (load four.mapped_data 2 1 ≡ some v) × (read_type 2 four 1 ≡ ok v) × (v < 256 ^ 2)
read_inside_example = read_inside four four-IsIntact 2 1 (omega arith)

read_outside_example : read_type 2 four 3 ≡ err invalid_offset
read_outside_example = read_outside four 2 3 (omega arith)

read_type_split_example :
    read_type (2 + 2) four 0
    ≡ (do lo ← read_type 2 four 0; hi ← read_type 2 four (0 + 2); ok (lo + 256 ^ 2 * hi))
read_type_split_example = read_type_split four four-IsIntact 2 2 0

-- src/chunk_store.hpp, in blocks of two
abbrev doubling : VectorPolicy
doubling = record { grown = λ n. 2 * n; shrunk = λ n capacity. n; grants = λ table n. ltb n 1000 }

abbrev pushed : List ℕ → ChunkStore ℕ
pushed items = push_all 2 doubling 0 empty_store items

abbrev three_items : ChunkStore ℕ
three_items = pushed (5 ∷ 6 ∷ 7 ∷ [])

abbrev reserved : ChunkStore ℕ
reserved = reserve_for 2 5 empty_store

one_item-IsValid : IsValid 2 (pushed (5 ∷ []))
unfolding push_all
one_item-IsValid =
    push_back-IsValid 2 0 empty_store (empty_store-IsValid 2 (omega arith)) doubling 5

three_items-IsValid : IsValid 2 three_items
unfolding push_all
three_items-IsValid =
    push_back-IsValid 2 0 _ (push_back-IsValid 2 0 _ one_item-IsValid doubling 6) doubling 7

push_back-IsValid_example : IsValid 2 (push_back 2 doubling 0 three_items 8)
push_back-IsValid_example = push_back-IsValid 2 0 three_items three_items-IsValid doubling 8

elements-push_back_example :
    elements 2 (push_back 2 doubling 0 three_items 8) ≡ elements 2 three_items ++ some 8 ∷ []
elements-push_back_example = elements-push_back 2 doubling 0 three_items three_items-IsValid 8

moves-reserve_for_example :
    (push_all {A = ℕ} 2 doubling 0 reserved (5 ∷ 6 ∷ 7 ∷ [])).moves ≡ reserved.moves
moves-reserve_for_example =
    moves-reserve_for {A = ℕ} 2 doubling 0 empty_store (5 ∷ 6 ∷ 7 ∷ []) 5
      (empty_store-IsValid 2 (omega arith)) (omega arith)
