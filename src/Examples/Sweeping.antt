-- ===== src/Examples/Sweeping.antt =====
-- Runs of the theorems on src/disassembler/disassembler.cpp.
use voidwalk.Common.{
  ◌≡◌, ◌⊎◌, refl, arith, ℕ, ◌*◌, ltb, bad_alloc, Bool, true, false, [], ◌∷◌, Option, some,
}
use voidwalk.AddressSpace.{AddressSpace}
use voidwalk.Arch.{Decoder, x86_decoder}
use voidwalk.ChunkStore.{VectorPolicy, chunk_size, empty_store, try_reserve_for, clear}
use voidwalk.ChunkStore.Invariant.{empty_store-IsValid}
use voidwalk.Format.Section.{Header}
use voidwalk.Sweep.{
  returned, threw, Disassembler, state_of, sweep, decode, prepare, total_text_size,
  reserve_instructions,
}
use voidwalk.Sweep.Prepared.{claimed_blocks}
use voidwalk.Sweep.Rows.{IsPaired, Swept}
use voidwalk.Sweep.Tiling.{sweep-Swept}
use voidwalk.Sweep.Ending.{IsEnded, IsThrowable, decode-IsEnded, decode-returned}
use voidwalk.Sweep.Filled.{IsFilled, decode-IsFilled}
use voidwalk.Sweep.Published.{GaveUp, decode-IsPaired}
use voidwalk.AddressSpace.Reads.{IsIntact}
use voidwalk.Examples.Images.{image, image-IsIntact}

abbrev doubling : VectorPolicy
doubling = record { grown = λ n. 2 * n; shrunk = λ n capacity. n; grants = λ table n. ltb n 1000 }

-- NOP, SUB RSP, 28h, RET
abbrev code : AddressSpace
code = image (0x90 ∷ 0x48 ∷ 0x83 ∷ 0xec ∷ 0x28 ∷ 0xc3 ∷ [])

abbrev text : Header
text = record { vaddr = 0x1000; offset = 0; size = 6 }

abbrev amd64 : Option Decoder
amd64 = some (x86_decoder true)

abbrev idle : Disassembler
idle = record {
  instructions = empty_store;
  addresses = empty_store;
  ready_count = 0;
  next_emit_index = 0;
  printed = [];
  polls = 0;
}

abbrev never : ℕ → Bool
never poll = false

idle-IsPaired : IsPaired idle
idle-IsPaired = record {
  instructions_valid = empty_store-IsValid chunk_size (omega arith);
  addresses_valid = empty_store-IsValid chunk_size (omega arith);
  same_count = refl;
  published = refl;
}

sweep-Swept_example :
    Swept code 0 0x1000 idle (state_of (sweep doubling code amd64 false never 7 0 6 0x1000 idle))
sweep-Swept_example = sweep-Swept doubling code amd64 false never 7 0 6 0x1000 idle idle-IsPaired

decode-IsEnded_example :
    IsEnded IsThrowable (decode doubling code amd64 false never (text ∷ []) idle)
decode-IsEnded_example = decode-IsEnded doubling code false never amd64 (text ∷ []) idle

code-IsIntact : IsIntact code
code-IsIntact =
    image-IsIntact (0x90 ∷ 0x48 ∷ 0x83 ∷ 0xec ∷ 0x28 ∷ 0xc3 ∷ [])
      (omega arith, (omega arith, (omega arith, (omega arith, (omega arith, (omega arith, tt))))))

text-granted :
    (table : ℕ)
    → doubling.grants table
        (claimed_blocks doubling code (some (x86_decoder true)) false never (text ∷ []))
      ≡ true
unfolding total_text_size
text-granted table = refl

-- A section that claims nearly all of a 64-bit range, in an object that was decoded before: the count
-- of the first run stays, with no element left.
abbrev liar : Header
liar = record { vaddr = 0x1000; offset = 0; size = 0xffffffffffffffff }

abbrev used : Disassembler
used = record idle { ready_count = 3 }

liar_is_refused : decode doubling code amd64 false never (liar ∷ []) used ≡ threw used bad_alloc
unfolding decode prepare total_text_size reserve_instructions try_reserve_for clear
liar_is_refused = refl

decode-returned_example :
    (result : Disassembler) × (decode doubling code
        (some (x86_decoder true))
        false
        never
        (text ∷ [])
        idle
      ≡ returned result)
decode-returned_example =
    decode-returned doubling code false never true (text ∷ []) idle code-IsIntact text-granted

decode-IsFilled_example :
    IsFilled (state_of (decode doubling code amd64 false never (text ∷ []) idle))
    ⊎ GaveUp doubling code amd64 false never
        (text ∷ [])
        idle
        (decode doubling code amd64 false never (text ∷ []) idle)
decode-IsFilled_example = decode-IsFilled doubling code amd64 false never (text ∷ []) idle

decode-IsPaired_example :
    IsPaired (state_of (decode doubling code amd64 false never (text ∷ []) idle))
    ⊎ GaveUp doubling code amd64 false never
        (text ∷ [])
        idle
        (decode doubling code amd64 false never (text ∷ []) idle)
decode-IsPaired_example = decode-IsPaired doubling code amd64 false never (text ∷ []) idle
