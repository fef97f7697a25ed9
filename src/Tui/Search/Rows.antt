-- ===== src/Tui/Search/Rows.antt =====
-- What rowIndexFor of src/tui/session.cpp finds.
use voidwalk.Common.{
  ℕ, suc, ◌+◌, ◌-◌, ◌≤◌, ◌<◌, ◌==◌, ltb, leb, if◌then◌else◌, Bool, true, false, not, ◌&&◌, ◌||◌,
  Bool-cases, inl, inr, List, [], ◌∷◌, ◌≡◌, refl, arith, bytes_eq, codes, ltb→lt, ltb→le,
}
use mathlib.Core.Path.{subst}
use voidwalk.Gui.Rows.{SectionInfo}
use voidwalk.Tui.Search.{
  Best, initial, split, in_section, visit, visit_all, row_index_for, IsBoundary, split-IsBoundary,
}

and_left : (a b : Bool) → (a && b) ≡ true → a ≡ true
and_left true b h = refl
and_left false b h = cc

or_false : (a b : Bool) → (a || b) ≡ false → b ≡ false
or_false true b h = cc
or_false false b h = h

not_le : (a b : ℕ) → leb a b ≡ false → b < a
not_le a b h = ground arith

not_zero : (n : ℕ) → n == 0 ≡ false → 0 < n
not_zero n h = ground arith

module _ (at : ℕ → ℕ) (shown vaddr : ℕ) where
  -- The start of the next section and the best row so far
  record Within (b : Best) : Type 0 where
    row_in : b.row < shown
    start_in : b.start ≤ shown

  if_Within :
      (c : Bool) (x y : Best)
      → (c ≡ true → Within x)
      → (c ≡ false → Within y)
      → Within (if c then x else y)
  if_Within true x y h k = h refl
  if_Within false x y h k = k refl

  visit-Within : (s : SectionInfo) (b : Best) → Within b → Within (visit at shown vaddr s b)
  unfolding visit
  visit-Within s b w =
      let start = b.start in
      let end = split (shown - start) start shown (in_section at shown vaddr s) in
      let k = split (end - start) start end (λ i. leb (at i) vaddr) in
      let e =
        split-IsBoundary (shown - start) start shown (in_section at shown vaddr s) w.start_in
          (omega arith) in
      let f =
        split-IsBoundary (end - start) start end (λ i. leb (at i) vaddr) e.from (omega arith) in
      let end_in = e.to in
      let k_in = f.to in
      if_Within (not (bytes_eq (codes s.name) (codes ".text")) || leb shown start) _ _ (λ _. w)
        (λ _.
          if_Within (ltb start k && leb b.vaddr (at (k - 1))) _ _
            (λ t.
              let past = ltb→lt start k (and_left _ _ t) in
              record { row_in = omega arith; start_in = end_in })
            (λ _. record { row_in = w.row_in; start_in = end_in }))

  visit_all-Within :
      (sections : List SectionInfo) (b : Best)
      → Within b
      → Within (visit_all at shown vaddr sections b)
  unfolding visit_all
  visit_all-Within [] b w = w
  visit_all-Within (s ∷ rest) b w = visit_all-Within rest _ (visit-Within s b w)

if_below :
    (b : Bool) (y n : ℕ)
    → (b ≡ true → 0 < n)
    → (b ≡ false → y < n)
    → 0 < n
    → (if b then 0 else y) < n
if_below true y n h k p = p
if_below false y n h k p = k refl

-- The row that is found exists, whatever the addresses and the sections are, if there is a row.
pub row_index_for-shown :
    (at : ℕ → ℕ) (shown : ℕ) (sections : List SectionInfo) (vaddr : ℕ)
    → 0 < shown
    → row_index_for at shown sections vaddr < shown
unfolding row_index_for
row_index_for-shown at shown sections vaddr h =
    if_below (shown == 0) _ shown (λ _. h)
      (λ _.
        let w =
          visit_all-Within at shown vaddr sections initial
            (record { row_in = h; start_in = omega arith }) in
        w.row_in)
      h

-- One section that holds every row, the rows in the order of their addresses
pub record IsListing (at : ℕ → ℕ) (shown : ℕ) (s : SectionInfo) : Type 0 where
  pub is_text : bytes_eq (codes s.name) (codes ".text") ≡ true
  pub rising : (i j : ℕ) → i < j → j < shown → at i < at j
  pub inside : (i : ℕ) → i < shown → (s.vaddr ≤ at i) × (at i < s.vaddr + s.size)

clash : {b : Bool} → b ≡ true → b ≡ false → ⊥
clash h k = cc

all_shown :
    (test : ℕ → Bool) (shown end : ℕ)
    → ((i : ℕ) → i < shown → test i ≡ true)
    → IsBoundary 0 shown test end
    → end ≡ shown
all_shown test shown end all b = elim (Bool-cases (ltb end shown)) [
  | inl e ↦ elim (clash (all end (ltb→lt end shown e)) (b.after (ltb→lt end shown e))) [ ]
  | inr e ↦ let l = ltb→le end shown e in let h = b.to in omega arith
]

not_both : (a b : ℕ) → leb a b ≡ true → b < a → ⊥
not_both a b h k = ground arith

not_after : (a b : ℕ) → leb a b ≡ false → a ≤ b → ⊥
not_after a b h k = ground arith

taken_row :
    (none_shown skipped better : Bool) (x y : Best) (i : ℕ)
    → none_shown ≡ false
    → skipped ≡ false
    → better ≡ true
    → x.row ≡ i
    → (if none_shown then 0 else (if skipped then initial else if better then x else y).row) ≡ i
taken_row none_shown skipped better x y i a b c e = rw a (rw b (rw c e))

module _ (at : ℕ → ℕ) (shown : ℕ) (s : SectionInfo) (listing : IsListing at shown s) where
  in_section-all : (vaddr i : ℕ) → i < shown → in_section at shown vaddr s i ≡ true
  unfolding in_section
  in_section-all vaddr i h = let (low, high) = listing.inside i h in ground arith

  at_or_below : (k i : ℕ) → k ≤ i → i < shown → at k ≤ at i
  at_or_below k i l h = elim (Bool-cases (ltb k i)) [
    | inl e ↦ let lower = listing.rising k i (ltb→lt k i e) h in omega arith
    | inr e ↦
        let same : k ≡ i = (let m = ltb→le k i e in omega arith) in
        subst (λ j. at k ≤ at j) same (omega arith)
  ]

  -- Just behind the row that has the address
  boundary-at : (i k : ℕ) → i < shown → IsBoundary 0 shown (λ j. leb (at j) (at i)) k → k ≡ suc i
  boundary-at i k h b =
      let high = b.to in
      elim (Bool-cases (ltb i k)) [
        | inl past ↦ elim (Bool-cases (ltb (suc i) k)) [
          | inl more ↦
              let more_rows = ltb→lt (suc i) k more in
              elim (not_both (at (k - 1)) (at i) (b.before (omega arith))
                (listing.rising i (k - 1) (omega arith) (omega arith))) [ ]
          | inr no_more ↦ let l = ltb→le (suc i) k no_more in let m = ltb→lt i k past in omega arith
        ]
        | inr not_past ↦
            let l = ltb→le i k not_past in
            elim (not_after (at k) (at i) (b.after (omega arith)) (at_or_below k i l h)) [ ]
      ]

  -- With one code section that holds every row, and the rows in the order of their addresses, the
  -- address of a row finds that row.
  pub row_index_for-at : (i : ℕ) → i < shown → row_index_for at shown (s ∷ []) (at i) ≡ i
  unfolding row_index_for visit_all visit
  row_index_for-at i h =
      let inside = in_section at shown (at i) s in
      let end = split (shown - 0) 0 shown inside in
      let e = split-IsBoundary (shown - 0) 0 shown inside (omega arith) (omega arith) in
      let last = all_shown inside shown end (in_section-all (at i)) e in
      let k = split (end - 0) 0 end (λ j. leb (at j) (at i)) in
      let found : k ≡ suc i = boundary-at i k h (
        subst (λ n. IsBoundary 0 n (λ j. leb (at j) (at i)) k) last
          (split-IsBoundary (end - 0) 0 end (λ j. leb (at j) (at i)) e.from (omega arith))) in
      taken_row (shown == 0) (not (bytes_eq (codes s.name) (codes ".text")) || leb shown 0)
        (ltb 0 k && leb 0 (at (k - 1))) (record { row = k - 1; start = end; vaddr = at (k - 1) })
        (record { row = 0; start = end; vaddr = 0 }) i (ground arith)
        (rw listing.is_text (ground arith)) (rw found (ground arith)) (omega (arith, found))
