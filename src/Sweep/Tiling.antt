-- ===== src/Sweep/Tiling.antt =====
-- The rows that the sweep of src/disassembler/disassembler.cpp appends tile the section.
use voidwalk.Common.{
  ℕ, zero, suc, ◌+◌, ◌-◌, ◌≤◌, ◌≡◌, refl, sym, ap, ◌∙◌, ltb, leb, if◌then◌else◌, Bool, true, false,
  [], ◌∷◌, append_nil, append_assoc, map, length, Option, none, some, Result, add64, arith,
}
use Prim.{tt}
use mathlib.Core.Path.{subst}
use voidwalk.AddressSpace.{AddressSpace}
use voidwalk.Arch.{Decoder}
use voidwalk.ChunkStore.{ChunkStore, VectorPolicy, chunk_size, push_back, elements}
use voidwalk.ChunkStore.Invariant.{push_back-IsValid, count-push_back}
use voidwalk.ChunkStore.Contents.{elements-push_back}
use voidwalk.X86.Decoder.{Instruction}
use voidwalk.X86.Decoder.Consumes.{Consumed}
use voidwalk.X86.Decoder.Progress.{appended, stopped, thrown}
use voidwalk.Sweep.{Disassembler, Run, state_of, publish, emit_decoded_line, finish_round, sweep}
use voidwalk.Sweep.Rows.{
  addresses_from, IsPaired, Swept, Attempt, decoded, refused, decode_with-Attempt, publish_same,
  publish_row,
}

nothing_added :
    (contents : AddressSpace) (current vaddr : ℕ) (before now : Disassembler)
    → IsPaired before
    → now.instructions ≡ before.instructions
    → now.addresses ≡ before.addresses
    → now.ready_count ≡ before.instructions.count
    → Swept contents current vaddr before now
nothing_added contents current vaddr before now p i a r = record {
  rows = [];
  tiles = tt;
  paired = record {
    instructions_valid = rw i p.instructions_valid;
    addresses_valid = rw a p.addresses_valid;
    same_count = rw (i, a) p.same_count;
    published = rw i r;
  };
  instructions_added = rw i (sym (append_nil _));
  addresses_added = rw a (sym (append_nil _));
}

-- One row more in front of what the rest of the sweep adds
module _ (policy : VectorPolicy) (contents : AddressSpace) (current vaddr : ℕ) (row : Instruction)
    (before done : Disassembler) (p : IsPaired before)
    (i : done.instructions ≡ push_back chunk_size policy none before.instructions (some row))
    (a : done.addresses ≡ push_back chunk_size policy 0 before.addresses vaddr) where
  row_added :
      (now : Disassembler)
      → Consumed contents current 1 row.machine_code
      → Swept contents
          (current + length row.machine_code)
          (add64 vaddr (length row.machine_code))
          done
          now
      → Swept contents current vaddr before now
  row_added now c s = record {
    rows = row ∷ s.rows;
    tiles = (c, s.tiles);
    paired = s.paired;
    instructions_added =
        s.instructions_added
        ∙ rw
            (
              i,
              elements-push_back chunk_size policy none before.instructions p.instructions_valid
                  (some row),
            )
            (append_assoc (elements chunk_size before.instructions) (some (some row) ∷ [])
              (map (λ x. some (some x)) s.rows));
    addresses_added =
        s.addresses_added
        ∙ rw (a, elements-push_back chunk_size policy 0 before.addresses p.addresses_valid vaddr)
            (append_assoc (elements chunk_size before.addresses) (some vaddr ∷ [])
              (map (λ x. some x) (addresses_from (add64 vaddr (length row.machine_code)) s.rows)));
  }

  row-IsPaired : done.ready_count ≡ done.instructions.count → IsPaired done
  row-IsPaired r = record {
    instructions_valid = rw i (
        push_back-IsValid chunk_size none before.instructions p.instructions_valid policy
          (some row));
    addresses_valid =
        rw a (push_back-IsValid chunk_size 0 before.addresses p.addresses_valid policy vaddr);
    same_count =
        rw
          (
            i,
            a,
            count-push_back chunk_size policy 0 before.addresses vaddr,
            count-push_back chunk_size policy none before.instructions (some row),
          )
          (ap suc p.same_count);
    published = r;
  }

-- Asking the stop token changes neither store.
from_polled :
    (contents : AddressSpace) (current vaddr n : ℕ) (d now : Disassembler)
    → Swept contents current vaddr (record d { polls = n }) now
    → Swept contents current vaddr d now
from_polled contents current vaddr n d now s = record {
  rows = s.rows;
  tiles = s.tiles;
  paired = s.paired;
  instructions_added = s.instructions_added;
  addresses_added = s.addresses_added;
}

leb_same : (n : ℕ) → leb n n ≡ true
leb_same n = ground arith

leb_past : (n m : ℕ) → 1 ≤ m → leb (n + m) n ≡ false
leb_past n m h = ground arith

if_holds : (P : Run → Type 0) (b : Bool) (x y : Run) → P x → P y → P (if b then x else y)
if_holds P true x y h k = h
if_holds P false x y h k = k

module _ (policy : VectorPolicy) (contents : AddressSpace) (decoder : Option Decoder)
    (has_streams : Bool) (stop : ℕ → Bool) where
  finish_round-Swept :
      (current vaddr : ℕ) (d : Disassembler) (advance : ℕ → Disassembler → Run)
      (r : Result (ℕ × ChunkStore (Option Instruction)))
      → IsPaired d
      → Attempt policy contents current d.instructions r
      → ((next : ℕ) (done : Disassembler)
          → IsPaired done
          → Swept contents next (add64 vaddr (next - current)) done (state_of (advance next done)))
      → Swept contents current vaddr d (
          state_of
            (finish_round policy contents decoder has_streams stop current vaddr d advance r))
  unfolding finish_round publish emit_decoded_line
  finish_round-Swept current vaddr d advance r p (refused e ne) k =
      nothing_added contents current vaddr d d p refl refl p.published
  finish_round-Swept current vaddr d advance r p (decoded _ (thrown cut)) k =
      nothing_added contents current vaddr d d p refl refl p.published
  finish_round-Swept current vaddr d advance r p (decoded _ stopped) k = rw (leb_same current) (
      nothing_added contents current vaddr d _ p refl
        (publish_same policy contents decoder has_streams stop vaddr d p) refl)
  finish_round-Swept current vaddr d advance r p (decoded _ (appended row c)) k =
      let n = length row.machine_code in
      let store = push_back chunk_size policy none d.instructions (some row) in
      let done =
        emit_decoded_line policy contents decoder has_streams stop
          (publish policy contents decoder has_streams stop vaddr store d) in
      let a = publish_row policy contents decoder has_streams stop vaddr row d p in
      let width : current + n - current ≡ n = omega arith in
      let rest =
        k (current + n) done
          (row-IsPaired policy contents current vaddr row d done p refl a refl) in
      rw (leb_past current n c.at_least) (
        row_added policy contents current vaddr row d done p refl a _ c (
          subst
            (λ w.
              Swept contents (current + n) (add64 vaddr w) done
                (state_of (advance (current + n) done)))
            width rest))

  -- Whatever ends the sweep of a section, an exception included, it has added rows that cover the
  -- bytes from its start on without a gap, each with 1 to 15 bytes of the file, and for each row its
  -- address; both stores are valid and as long as each other, and that length is published. The
  -- stores were so before.
  pub sweep-Swept :
      (fuel current end vaddr : ℕ) (d : Disassembler)
      → IsPaired d
      → Swept contents current vaddr d
          (state_of (sweep policy contents decoder has_streams stop fuel current end vaddr d))
  unfolding sweep
  sweep-Swept zero current end vaddr d p =
      nothing_added contents current vaddr d d p refl refl p.published
  sweep-Swept (suc fuel) current end vaddr d p =
      let polled = record d { polls = suc d.polls } in
      let q : IsPaired polled = record {
        instructions_valid = p.instructions_valid;
        addresses_valid = p.addresses_valid;
        same_count = p.same_count;
        published = p.published;
      } in
      if_holds (λ r. Swept contents current vaddr d (state_of r)) (ltb current end) _ _
        (if_holds (λ r. Swept contents current vaddr d (state_of r)) (stop d.polls) _ _
          (nothing_added contents current vaddr d polled p refl refl p.published)
          (from_polled contents current vaddr (suc d.polls) d _ (
            finish_round-Swept current vaddr polled
              (λ next.
                sweep policy contents decoder has_streams stop fuel next end
                  (add64 vaddr (next - current)))
              _ q
              (decode_with-Attempt policy contents decoder has_streams stop decoder current vaddr
                d.instructions)
              (λ next done paired.
                sweep-Swept fuel next end (add64 vaddr (next - current)) done paired))))
        (nothing_added contents current vaddr d d p refl refl p.published)
