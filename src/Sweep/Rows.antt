-- ===== src/Sweep/Rows.antt =====
-- What the sweep of src/disassembler/disassembler.cpp leaves in the two stores.
use voidwalk.Common.{
  ℕ, ◌+◌, ◌-◌, ◌≡◌, ◌≢◌, ap, Bool, List, [], ◌∷◌, ◌++◌, map, length, Option, none, some, Error,
  out_of_fuel, Result, err, add64, arith,
}
use Prim.{Unit}
use voidwalk.AddressSpace.{AddressSpace}
use voidwalk.Arch.{Decoder, x86_decoder, arm32_decoder, aarch64_decoder}
use voidwalk.ChunkStore.{ChunkStore, VectorPolicy, chunk_size, push_back, elements}
use voidwalk.ChunkStore.Invariant.{IsValid, count-push_back}
use voidwalk.X86.Decoder.{Instruction}
use voidwalk.X86.Decoder.Consumes.{Consumed}
use voidwalk.X86.Decoder.Progress.{Decoded, decode_line-Decoded}
use voidwalk.Sweep.{Disassembler, decode_with, catch_up, publish}

-- The rows cover the bytes from the offset on without a gap, each with 1 to 15 bytes of the file.
abbrev pub Tiles : AddressSpace → ℕ → List Instruction → Type 0
Tiles contents offset [] = Unit
Tiles contents offset (row ∷ rows) =
    Consumed contents offset 1 row.machine_code
    × Tiles contents (offset + length row.machine_code) rows

-- The addresses of rows that follow one another from `vaddr` on
abbrev pub addresses_from : ℕ → List Instruction → List ℕ
addresses_from vaddr [] = []
addresses_from vaddr (row ∷ rows) =
    vaddr ∷ addresses_from (add64 vaddr (length row.machine_code)) rows

-- Both stores are whole, as long as each other, and published.
pub record IsPaired (d : Disassembler) : Type 0 where
  pub instructions_valid : IsValid chunk_size d.instructions
  pub addresses_valid : IsValid chunk_size d.addresses
  pub same_count : d.addresses.count ≡ d.instructions.count
  pub published : d.ready_count ≡ d.instructions.count

-- What a sweep that began at `current` and `vaddr` has added
pub record Swept (contents : AddressSpace) (current vaddr : ℕ) (before now : Disassembler)
    : Type 0 where
  pub rows : List Instruction
  pub tiles : Tiles contents current rows
  pub paired : IsPaired now
  pub instructions_added :
      elements chunk_size now.instructions
      ≡ elements chunk_size before.instructions ++ map (λ row. some (some row)) rows
  pub addresses_added :
      elements chunk_size now.addresses
      ≡ elements chunk_size before.addresses ++ map (λ a. some a) (addresses_from vaddr rows)

-- What the decoder of the binary gives the sweep
pub data Attempt (policy : VectorPolicy) (contents : AddressSpace) (offset : ℕ)
    (store : ChunkStore (Option Instruction))
    : Result (ℕ × ChunkStore (Option Instruction)) → Type 0 where
  decoded :
      (r : Result (ℕ × ChunkStore (Option Instruction)))
      → Decoded policy contents offset store r
      → Attempt policy contents offset store r
  refused : (e : Error) → e ≢ out_of_fuel → Attempt policy contents offset store (err e)

module _ (policy : VectorPolicy) (contents : AddressSpace) (decoder : Option Decoder)
    (has_streams : Bool) (stop : ℕ → Bool) where
  pub decode_with-Attempt :
      (which : Option Decoder) (offset vaddr : ℕ) (store : ChunkStore (Option Instruction))
      → Attempt policy contents offset store
          (decode_with policy contents decoder has_streams stop which offset vaddr store)
  unfolding decode_with
  decode_with-Attempt none offset vaddr store = refused _ (λ q. cc)
  decode_with-Attempt (some (x86_decoder is_64bit)) offset vaddr store =
      decoded _ (decode_line-Decoded policy contents offset store is_64bit vaddr)
  decode_with-Attempt (some arm32_decoder) offset vaddr store = refused _ (λ q. cc)
  decode_with-Attempt (some aarch64_decoder) offset vaddr store = refused _ (λ q. cc)

  caught_up :
      (n m vaddr : ℕ) (addresses : ChunkStore ℕ)
      → n ≡ m
      → catch_up policy contents decoder has_streams stop n vaddr addresses
        ≡ catch_up policy contents decoder has_streams stop m vaddr addresses
  caught_up n m vaddr addresses e =
      ap (λ k. catch_up policy contents decoder has_streams stop k vaddr addresses) e

  -- A round that decoded nothing leaves the stores as they were.
  pub publish_same :
      (vaddr : ℕ) (d : Disassembler)
      → IsPaired d
      → (publish policy contents decoder has_streams stop vaddr d.instructions d).addresses
        ≡ d.addresses
  unfolding publish catch_up
  publish_same vaddr d p =
      caught_up (d.instructions.count - d.addresses.count) 0 vaddr d.addresses
        (omega (arith, p.same_count))

  pub publish_row :
      (vaddr : ℕ) (row : Instruction) (d : Disassembler)
      → IsPaired d
      → (publish policy contents decoder has_streams stop vaddr
          (push_back chunk_size policy none d.instructions (some row))
          d).addresses
        ≡ push_back chunk_size policy 0 d.addresses vaddr
  unfolding publish catch_up
  publish_row vaddr row d p =
      let pushed = push_back chunk_size policy none d.instructions (some row) in
      caught_up (pushed.count - d.addresses.count) 1 vaddr d.addresses (
        omega
          (arith, p.same_count, count-push_back chunk_size policy none d.instructions (some row)))
