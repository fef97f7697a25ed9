-- ===== src/Gui/Fallback/Bounds.antt =====
-- How many rows Session::buildFallback of src/gui/session.cpp makes.
use voidwalk.Common.{
  ℕ, zero, suc, ◌+◌, ◌-◌, ◌*◌, ◌≤◌, ◌==◌, ltb, leb, if◌then◌else◌, Bool, true, false, List, [], ◌∷◌,
  length, length-append, Result, ok, >>=-eq-ok, ◌≡◌, refl, sym, ap, arith,
}
use mathlib.Core.Path.{subst}
use voidwalk.AddressSpace.{AddressSpace, read_u8, size}
use voidwalk.Format.Section.{Header}
use voidwalk.Session.Bytes.{bytes_of, read_bytes}
use voidwalk.Gui.Fallback.{DisasmRow, eight, rows_of, fallback_from, build_fallback, max_bytes}

rest-eight : (b : ℕ) (raw : List ℕ) → length (eight (b ∷ raw)).1 ≡ suc (length raw) - 8
rest-eight a [] = refl
rest-eight a (b ∷ []) = refl
rest-eight a (b ∷ c ∷ []) = refl
rest-eight a (b ∷ c ∷ d ∷ []) = refl
rest-eight a (b ∷ c ∷ d ∷ e ∷ []) = refl
rest-eight a (b ∷ c ∷ d ∷ e ∷ f ∷ []) = refl
rest-eight a (b ∷ c ∷ d ∷ e ∷ f ∷ g ∷ []) = refl
rest-eight a (b ∷ c ∷ d ∷ e ∷ f ∷ g ∷ h ∷ rest) = omega arith

-- A row for each eight bytes, the last one for what is left: the rounds are enough.
length-rows_of :
    (rounds vaddr i : ℕ) (raw : List ℕ)
    → length raw ≤ rounds
    → (length raw ≤ 8 * length (rows_of rounds vaddr i raw))
      × (8 * length (rows_of rounds vaddr i raw) ≤ length raw + 7)
unfolding rows_of
length-rows_of zero vaddr i [] h = (omega arith, omega arith)
length-rows_of zero vaddr i (b ∷ raw) h = (omega arith, omega arith)
length-rows_of (suc rounds) vaddr i [] h = (omega arith, omega arith)
length-rows_of (suc rounds) vaddr i (b ∷ raw) h =
    let e = rest-eight b raw in
    let (low, high) = length-rows_of rounds vaddr (i + 8) (eight (b ∷ raw)).1 (omega (arith, e)) in
    (omega (arith, e, low), omega (arith, e, high))

ok_injective {ℓ} : {A : Type ℓ} {a b : A} → ◌≡◌ {A = Result A} (ok a) (ok b) → a ≡ b
ok_injective h = cc

length-read_bytes :
    (space : AddressSpace) (count offset : ℕ) (bs : List ℕ)
    → read_bytes space offset count ≡ ok bs
    → length bs ≡ count
unfolding read_bytes
length-read_bytes space zero offset bs h = ap length (sym (ok_injective h))
length-read_bytes space (suc count) offset bs h =
    let (b, _, h1) = >>=-eq-ok (read_u8 space offset) _ h in
    let (rest, e, h2) = >>=-eq-ok (read_bytes space (suc offset) count) _ h1 in
    rw (← ok_injective h2) (ap suc (length-read_bytes space count (suc offset) rest e))

none_or_read :
    (b : Bool) (r : Result (List ℕ)) (bs : List ℕ) (n : ℕ)
    → (if b then ok [] else r) ≡ ok bs
    → (r ≡ ok bs → length bs ≤ n)
    → length bs ≤ n
none_or_read true r bs n h k = rw (← ok_injective h) (omega arith)
none_or_read false r bs n h k = k h

length-bytes_of :
    (space : AddressSpace) (count offset : ℕ) (bs : List ℕ)
    → bytes_of space offset count ≡ ok bs
    → length bs ≤ count
unfolding bytes_of size
length-bytes_of space count offset bs h =
    let wanted = if ltb (space.file_size - offset) count then space.file_size - offset else count in
    none_or_read (leb space.file_size offset) (read_bytes space offset wanted) bs count h
      (λ e. let n = length-read_bytes space wanted offset bs e in ground arith)

in_budget :
    (budget size raw here others sections : ℕ)
    → raw ≤ (if ltb size budget then size else budget)
    → 8 * here ≤ raw + 7
    → 8 * others ≤ budget - raw + 7 * sections
    → 8 * (here + others) ≤ budget + 7 * suc sections
in_budget budget size raw here others sections few high more = ground arith

-- Eight times the rows, at most: the bytes of the budget, and seven that each section rounds up
module _ (space : AddressSpace) where
  abbrev Bounded : ℕ → List Header → Result (List DisasmRow) → Type 0
  Bounded budget text r =
      (rows : List DisasmRow) → r ≡ ok rows → 8 * length rows ≤ budget + 7 * length text

  Bounded-if :
      (budget : ℕ) (text : List Header) (b : Bool) (r q : Result (List DisasmRow))
      → Bounded budget text r
      → Bounded budget text q
      → Bounded budget text (if b then r else q)
  Bounded-if budget text true r q h k = h
  Bounded-if budget text false r q h k = k

  Bounded-none : (budget : ℕ) (text : List Header) → Bounded budget text (ok [])
  Bounded-none budget text rows h = rw (← ok_injective h) (omega arith)

  Bounded-fallback_from :
      (text : List Header) (budget : ℕ) → Bounded budget text (fallback_from space budget text)
  unfolding fallback_from
  Bounded-fallback_from [] budget = Bounded-none budget []
  Bounded-fallback_from (text ∷ rest) budget =
      Bounded-if budget (text ∷ rest) (budget == 0) _ _ (Bounded-none budget (text ∷ rest)) (
        Bounded-if budget (text ∷ rest) (text.size == 0) _ _
          (λ rows h. omega (arith, Bounded-fallback_from rest budget rows h))
          (λ rows h.
            let wanted = if ltb text.size budget then text.size else budget in
            let (raw, e, h1) = >>=-eq-ok (bytes_of space text.offset wanted) _ h in
            let (others, e2, h2) =
              >>=-eq-ok (fallback_from space (budget - length raw) rest) _ h1 in
            let few = length-bytes_of space wanted text.offset raw e in
            let (low, high) = length-rows_of (length raw) text.vaddr 0 raw (omega arith) in
            let more = Bounded-fallback_from rest (budget - length raw) others e2 in
            let sum = length-append (rows_of (length raw) text.vaddr 0 raw) others in
            subst (λ rs. 8 * length rs ≤ budget + 7 * suc (length rest)) (ok_injective h2)
              (rw sum (in_budget budget text.size (length raw) _ _ (length rest) few high more))))

-- The pane of a binary without a decoder has at most 512 rows and one more for each section, however
-- large the sections claim to be.
pub length-build_fallback :
    (space : AddressSpace) (text : List Header) (rows : List DisasmRow)
    → build_fallback space text ≡ ok rows
    → length rows ≤ 512 + length text
unfolding build_fallback
length-build_fallback space text rows h =
    omega (arith, Bounded-fallback_from space text max_bytes rows h)
