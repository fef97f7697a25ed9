-- ===== src/Sweep.antt =====
-- src/disassembler/disassembler.hpp and .cpp: the sweep over the code sections of a binary.
pub mod Rows
pub mod Tiling
pub mod Ending
pub mod Prepared
pub mod Published
pub mod Filled
use voidwalk.Common.{
  ℕ, zero, suc, ◌+◌, ◌-◌, ltb, leb, if◌then◌else◌, Bool, true, false, List, [], ◌∷◌, ◌++◌, Option,
  none, some, Error, runtime_error, out_of_fuel, Result, ok, err, add64,
}
use voidwalk.AddressSpace.{AddressSpace}
use voidwalk.Arch.{Decoder, x86_decoder, arm32_decoder, aarch64_decoder}
use voidwalk.ChunkStore.{
  ChunkStore, VectorPolicy, chunk_size, push_back, clear, try_reserve_for, index, empty_store,
  shrink_to_fit,
}
use voidwalk.Format.Section.{Header}
use voidwalk.X86.Decoder.{Instruction, decode_line}

-- What a line of the output shows: the slots that the two stores have at one position.
abbrev pub Line : Type 0
Line = Option ℕ × Option (Option Instruction)

-- The fields of Disassembler that the sweep changes. `printed` is what each of the output streams
-- has got, and `polls` counts the questions to the stop token.
pub record Disassembler : Type 0 where
  pub instructions : ChunkStore (Option Instruction)
  pub addresses : ChunkStore ℕ
  pub ready_count : ℕ
  pub next_emit_index : ℕ
  pub printed : List Line
  pub polls : ℕ

-- How `decode` ends: the object as it is left, and the exception if one left it.
pub data Run : Type 0 where
  returned : Disassembler → Run
  threw : Disassembler → Error → Run

abbrev pub state_of : Run → Disassembler
state_of (returned d) = d
state_of (threw d e) = d

-- The rest of the sweep after one section: an exception skips it.
abbrev pub after : Run → (Disassembler → Run) → Run
after (returned d) next = next d
after (threw d e) next = threw d e

abbrev pub no_decoder : Error
no_decoder = runtime_error "Invalid architecture. Cannot parse."

abbrev pub not_implemented : Error
not_implemented = runtime_error "Not implemented yet."

-- `stop` answers the questions to the stop token, by their number.
module _ (policy : VectorPolicy) (contents : AddressSpace) (decoder : Option Decoder)
    (has_streams : Bool) (stop : ℕ → Bool) where
  -- Disassembler::decodeLine, with the decodeLine of the decoder that it calls
  unfoldable pub decode_with :
      Option Decoder
      → ℕ
      → ℕ
      → ChunkStore (Option Instruction)
      → Result (ℕ × ChunkStore (Option Instruction))
  decode_with none file_offset vaddr store = err no_decoder
  decode_with (some (x86_decoder is_64bit)) file_offset vaddr store =
      decode_line policy contents is_64bit file_offset vaddr store
  decode_with (some arm32_decoder) file_offset vaddr store = err not_implemented
  decode_with (some aarch64_decoder) file_offset vaddr store = err not_implemented

  -- The inner `while` pushes the line's address once for each instruction that has none.
  unfoldable pub catch_up : ℕ → ℕ → ChunkStore ℕ → ChunkStore ℕ
  catch_up zero vaddr addresses = addresses
  catch_up (suc missing) vaddr addresses =
      catch_up missing vaddr (push_back chunk_size policy 0 addresses vaddr)

  -- emitDecodedLine
  unfoldable pub emit_decoded_line : Disassembler → Disassembler
  emit_decoded_line d =
      let i = d.next_emit_index in
      let line : Line = (index chunk_size d.addresses i, index chunk_size d.instructions i) in
      record d {
        printed = if has_streams then d.printed ++ line ∷ [] else d.printed;
        next_emit_index = suc i;
      }

  -- What one round stores before it tests for progress
  unfoldable pub publish : ℕ → ChunkStore (Option Instruction) → Disassembler → Disassembler
  unfolding catch_up
  publish vaddr store d = record d {
    instructions = store;
    addresses = catch_up (store.count - d.addresses.count) vaddr d.addresses;
    ready_count = store.count;
  }

  -- A round, from what `decodeLine` gave; `advance` is the rest of the loop.
  unfoldable pub finish_round :
      ℕ
      → ℕ
      → Disassembler
      → (ℕ → Disassembler → Run)
      → Result (ℕ × ChunkStore (Option Instruction))
      → Run
  unfolding publish emit_decoded_line
  finish_round current vaddr d advance (err e) = threw d e
  finish_round current vaddr d advance (ok (next, store)) =
      let done = publish vaddr store d in
      if leb next current then returned done else advance next (emit_decoded_line done)

  -- The loop over one section. A round that goes on has made at least one byte of progress.
  unfoldable pub sweep : ℕ → ℕ → ℕ → ℕ → Disassembler → Run
  unfolding decode_with finish_round
  sweep zero current end vaddr d = threw d out_of_fuel
  sweep (suc fuel) current end vaddr d =
      let polled = record d { polls = suc d.polls } in
      let advance = λ (next : ℕ). sweep fuel next end (add64 vaddr (next - current)) in
      let line = decode_with decoder current vaddr polled.instructions in
      if ltb current end
      then (if stop d.polls
          then returned polled
          else finish_round current vaddr polled advance line)
      else returned d

  -- From `getOffset()` to `getOffset() + getSize()`
  unfoldable pub sweep_section : Header → Disassembler → Run
  unfolding sweep
  sweep_section h d =
      let end = add64 h.offset h.size in sweep (suc (end - h.offset)) h.offset end h.vaddr d

  unfoldable pub sweep_sections : List Header → Disassembler → Run
  unfolding sweep_section
  sweep_sections [] d = returned d
  sweep_sections (h ∷ rest) d = after (sweep_section h d) (sweep_sections rest)

  unfoldable pub total_text_size : List Header → ℕ
  total_text_size [] = 0
  total_text_size (h ∷ rest) = add64 h.size (total_text_size rest)

  -- `reserveFor` of the two stores, by the claimed number of bytes
  unfoldable pub reserve_instructions : ℕ → Disassembler → Run
  unfolding try_reserve_for
  reserve_instructions n d = elim (try_reserve_for chunk_size policy 0 n d.instructions) [
    | err e ↦ threw d e
    | ok store ↦ returned (record d { instructions = store })
  ]

  unfoldable pub reserve_addresses : ℕ → Disassembler → Run
  unfolding try_reserve_for
  reserve_addresses n d = elim (try_reserve_for chunk_size policy 1 n d.addresses) [
    | err e ↦ threw d e
    | ok store ↦ returned (record d { addresses = store })
  ]

  -- Disassembler::decode up to its loop
  unfoldable pub prepare : List Header → Disassembler → Run
  unfolding total_text_size reserve_instructions reserve_addresses
  prepare text d =
      let n = total_text_size text in
      let cleared = record d {
        instructions = clear d.instructions;
        addresses = clear d.addresses;
      } in
      after (after (reserve_instructions n cleared) (reserve_addresses n))
        (λ t. returned (record t { ready_count = 0 }))

  unfoldable pub decode : List Header → Disassembler → Run
  unfolding prepare sweep_sections
  decode text d = after (prepare text d) (sweep_sections text)

  unfoldable pub compact : Disassembler → Disassembler
  compact d = record d {
    instructions = shrink_to_fit policy d.instructions;
    addresses = shrink_to_fit policy d.addresses;
  }
