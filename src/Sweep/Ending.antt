-- ===== src/Sweep/Ending.antt =====
-- The loops of src/disassembler/disassembler.cpp end: a round that goes on makes progress.
use voidwalk.Common.{
  ℕ, zero, suc, ◌-◌, ◌<◌, ◌≡◌, ◌≢◌, refl, ltb, leb, if◌then◌else◌, Bool, true, false, List, [], ◌∷◌,
  Option, some, Error, out_of_fuel, bad_alloc, Result, ok, err, err_injective, add64, arith,
}
use mathlib.Core.Path.{subst}
use voidwalk.AddressSpace.{AddressSpace}
use voidwalk.AddressSpace.Reads.{IsIntact}
use voidwalk.Arch.{Decoder, x86_decoder}
use voidwalk.ChunkStore.{ChunkStore, VectorPolicy}
use voidwalk.Format.Section.{Header}
use voidwalk.X86.Decoder.{Instruction}
use voidwalk.X86.Decoder.Progress.{Decoded, appended, stopped, thrown, decode_line-Decoded}
use voidwalk.Sweep.{
  Disassembler, Run, returned, threw, after, decode_with, finish_round, sweep, sweep_section,
  sweep_sections, decode, prepare,
}
use voidwalk.Sweep.Prepared.{Prepared, ready, refused, claimed_blocks, prepare-Prepared}
use voidwalk.Sweep.Rows.{Attempt, decoded, refused, decode_with-Attempt}

-- A run that returned, or that an exception of the given kind left
pub data IsEnded (Allowed : Error → Type 0) : Run → Type 0 where
  by_return : (d : Disassembler) → IsEnded Allowed (returned d)
  by_throw : (d : Disassembler) (e : Error) → Allowed e → IsEnded Allowed (threw d e)

-- An exception of the program: no loop has used up its rounds.
abbrev pub IsThrowable : Error → Type 0
IsThrowable e = e ≢ out_of_fuel

progressed : (next current : ℕ) → leb next current ≡ false → current < next
progressed next current h = ground arith

fewer_rounds :
    (current end next fuel : ℕ)
    → ltb current end ≡ true
    → current < next
    → end - current < suc fuel
    → end - next < fuel
fewer_rounds current end next fuel h past enough = ground arith

no_rounds : {n : ℕ} → n < 0 → ⊥
no_rounds h = omega arith

module _ (Allowed : Error → Type 0) where
  if_IsEnded :
      (b : Bool) (x y : Run)
      → (b ≡ true → IsEnded Allowed x)
      → (b ≡ false → IsEnded Allowed y)
      → IsEnded Allowed (if b then x else y)
  if_IsEnded true x y h k = h refl
  if_IsEnded false x y h k = k refl

  IsEnded-after :
      (r : Run) (next : Disassembler → Run)
      → IsEnded Allowed r
      → ((d : Disassembler) → IsEnded Allowed (next d))
      → IsEnded Allowed (after r next)
  IsEnded-after r next (by_return d) k = k d
  IsEnded-after r next (by_throw d e h) k = by_throw d e h

  module _ (policy : VectorPolicy) (contents : AddressSpace) (decoder : Option Decoder)
      (has_streams : Bool) (stop : ℕ → Bool)
      (line-Allowed : (offset vaddr : ℕ) (store : ChunkStore (Option Instruction)) (e : Error)
        → decode_with policy contents decoder has_streams stop decoder offset vaddr store ≡ err e
        → Allowed e) where
    IsEnded-finish_round :
        (current vaddr : ℕ) (d : Disassembler) (advance : ℕ → Disassembler → Run)
        (r : Result (ℕ × ChunkStore (Option Instruction)))
        → ((e : Error) → r ≡ err e → Allowed e)
        → ((next : ℕ) (done : Disassembler) → current < next → IsEnded Allowed (advance next done))
        → IsEnded Allowed
            (finish_round policy contents decoder has_streams stop current vaddr d advance r)
    unfolding finish_round
    IsEnded-finish_round current vaddr d advance (err e) h k = by_throw d e (h e refl)
    IsEnded-finish_round current vaddr d advance (ok (next, store)) h k =
        if_IsEnded (leb next current) _ _ (λ _. by_return _)
          (λ p. k next _ (progressed next current p))

    IsEnded-sweep :
        (fuel current end vaddr : ℕ) (d : Disassembler)
        → end - current < fuel
        → IsEnded Allowed (sweep policy contents decoder has_streams stop fuel current end vaddr d)
    unfolding sweep
    IsEnded-sweep zero current end vaddr d enough = elim (no_rounds enough) [ ]
    IsEnded-sweep (suc fuel) current end vaddr d enough =
        let polled = record d { polls = suc d.polls } in
        if_IsEnded (ltb current end) _ _
          (λ inside.
            if_IsEnded (stop d.polls) _ _ (λ _. by_return _)
              (λ _.
                IsEnded-finish_round current vaddr polled
                  (λ next.
                    sweep policy contents decoder has_streams stop fuel next end
                      (add64 vaddr (next - current)))
                  _ (line-Allowed current vaddr d.instructions)
                  (λ next done past.
                    IsEnded-sweep fuel next end _ done
                      (fewer_rounds current end next fuel inside past enough))))
          (λ _. by_return _)

    IsEnded-sweep_sections :
        (text : List Header) (d : Disassembler)
        → IsEnded Allowed (sweep_sections policy contents decoder has_streams stop text d)
    unfolding sweep_sections sweep_section
    IsEnded-sweep_sections [] d = by_return d
    IsEnded-sweep_sections (h ∷ rest) d =
        IsEnded-after _ _
          (IsEnded-sweep (suc (add64 h.offset h.size - h.offset)) h.offset (add64 h.offset h.size)
            h.vaddr d (omega arith))
          (IsEnded-sweep_sections rest)

Attempt-IsThrowable :
    (policy : VectorPolicy) (contents : AddressSpace) (offset : ℕ)
    (store : ChunkStore (Option Instruction)) (r : Result (ℕ × ChunkStore (Option Instruction)))
    (e : Error)
    → Attempt policy contents offset store r
    → r ≡ err e
    → IsThrowable e
Attempt-IsThrowable policy contents offset store r e (refused x ne) h =
    subst IsThrowable (err_injective h) ne
Attempt-IsThrowable policy contents offset store r e (decoded _ (thrown cut)) h =
    subst IsThrowable (err_injective h) (λ q. cc)
Attempt-IsThrowable policy contents offset store r e (decoded _ stopped) h = cc
Attempt-IsThrowable policy contents offset store r e (decoded _ (appended row c)) h = cc

intact_no_error :
    (policy : VectorPolicy) (contents : AddressSpace) (offset : ℕ)
    (store : ChunkStore (Option Instruction)) (r : Result (ℕ × ChunkStore (Option Instruction)))
    (e : Error)
    → IsIntact contents
    → Decoded policy contents offset store r
    → r ≡ err e
    → ⊥
intact_no_error policy contents offset store r e intact (thrown cut) h = cut intact
intact_no_error policy contents offset store r e intact stopped h = cc
intact_no_error policy contents offset store r e intact (appended row c) h = cc

module _ (policy : VectorPolicy) (contents : AddressSpace) (has_streams : Bool)
    (stop : ℕ → Bool) where
  IsEnded-Prepared :
      (decoder : Option Decoder) (text : List Header) (before : Disassembler) (r : Run)
      (next : Disassembler → Run)
      → Prepared policy contents decoder has_streams stop text before r
      → ((d : Disassembler) → IsEnded IsThrowable (next d))
      → IsEnded IsThrowable (after r next)
  IsEnded-Prepared decoder text before r next (ready d _ _) k = k d
  IsEnded-Prepared decoder text before r next (refused d h) k = by_throw d bad_alloc (λ q. cc)

  -- `decode` ends on every binary, decoder, section list and answers of the stop token: it returns or
  -- an exception of the program leaves it, and no loop uses up its rounds, of which a section has one
  -- more than it has bytes.
  pub decode-IsEnded :
      (decoder : Option Decoder) (text : List Header) (d : Disassembler)
      → IsEnded IsThrowable (decode policy contents decoder has_streams stop text d)
  unfolding decode
  decode-IsEnded decoder text d =
      IsEnded-Prepared decoder text d (prepare policy contents decoder has_streams stop text d)
        (sweep_sections policy contents decoder has_streams stop text)
        (prepare-Prepared policy contents decoder has_streams stop text d)
        (IsEnded-sweep_sections IsThrowable policy contents decoder has_streams stop
          (λ offset vaddr store e. Attempt-IsThrowable policy contents offset store _ e (
            decode_with-Attempt policy contents decoder has_streams stop decoder offset vaddr
              store))
          text)

  nothing_thrown : (r : Run) → IsEnded (λ e. ⊥) r → (d : Disassembler) × (r ≡ returned d)
  nothing_thrown r (by_return d) = (d, refl)
  nothing_thrown r (by_throw d e h) = elim h [ ]

  refused_granted : (b : Bool) → b ≡ false → b ≡ true → ⊥
  refused_granted b h k = cc

  IsEnded-granted :
      (decoder : Option Decoder) (text : List Header) (before : Disassembler) (r : Run)
      (next : Disassembler → Run)
      → ((table : ℕ)
          → policy.grants table (claimed_blocks policy contents decoder has_streams stop text)
            ≡ true)
      → Prepared policy contents decoder has_streams stop text before r
      → ((d : Disassembler) → IsEnded (λ e. ⊥) (next d))
      → IsEnded (λ e. ⊥) (after r next)
  IsEnded-granted decoder text before r next granted (ready d _ _) k = k d
  IsEnded-granted decoder text before r next granted (refused d h) k =
      elim (refused_granted _ h.refusal (granted h.table)) [ ]

  -- On an intact file, with the x86 or x86-64 decoder, and if the allocator grants the block tables for
  -- the sum of the sizes that the code sections claim, `decode` returns: whatever else the sections
  -- claim and the bytes are, no exception leaves it.
  pub decode-returned :
      (is_64bit : Bool) (text : List Header) (d : Disassembler)
      → IsIntact contents
      → ((table : ℕ)
          → policy.grants table
              (claimed_blocks policy contents (some (x86_decoder is_64bit)) has_streams stop text)
            ≡ true)
      → (result : Disassembler) × (decode policy contents
            (some (x86_decoder is_64bit))
            has_streams
            stop
            text
            d
          ≡ returned result)
  unfolding decode decode_with
  decode-returned is_64bit text d intact granted =
      let decoder = some (x86_decoder is_64bit) in
      nothing_thrown _ (
        IsEnded-granted decoder text d (prepare policy contents decoder has_streams stop text d)
          (sweep_sections policy contents decoder has_streams stop text) granted
          (prepare-Prepared policy contents decoder has_streams stop text d)
          (IsEnded-sweep_sections (λ e. ⊥) policy contents decoder has_streams stop
            (λ offset vaddr store e.
              intact_no_error policy contents offset store _ e intact
                (decode_line-Decoded policy contents offset store is_64bit vaddr))
            text))
