-- ===== src/Tui/Search.antt =====
-- The row of an address: rowIndexFor of src/tui/session.cpp and the binary search in it.
pub mod Rows
use voidwalk.Common.{
  ℕ, zero, suc, ◌+◌, ◌-◌, ◌*◌, ◌/◌, ◌≤◌, ◌<◌, ◌==◌, ltb, leb, if◌then◌else◌, Bool, true, false, not,
  ◌&&◌, ◌||◌, Bool-cases, inl, inr, String, List, [], ◌∷◌, ◌≡◌, refl, ap, arith, bytes_eq, codes,
  ltb→lt, ltb→le,
}
use mathlib.Core.Path.{subst}
use voidwalk.Gui.Rows.{SectionInfo}

-- The lambda split: the first position from `lo` on below `hi` at which the test fails. The distance
-- halves, so that `hi - lo` rounds are enough.
unfoldable pub split : ℕ → ℕ → ℕ → (ℕ → Bool) → ℕ
split zero lo hi test = lo
split (suc rounds) lo hi test =
    let mid = lo + (hi - lo) / 2 in
    let above = split rounds (suc mid) hi test in
    let below = split rounds lo mid test in
    if ltb lo hi then (if test mid then above else below) else lo

-- What the loop over the sections changes
pub record Best : Type 0 where
  pub row : ℕ
  pub start : ℕ
  pub vaddr : ℕ

abbrev pub initial : Best
initial = record { row = 0; start = 0; vaddr = 0 }

-- `at` is the lambda of that name.
module _ (at : ℕ → ℕ) (shown vaddr : ℕ) where
  unfoldable in_section : SectionInfo → ℕ → Bool
  in_section s i = leb s.vaddr (at i) && ltb (at i - s.vaddr) s.size

  unfoldable visit : SectionInfo → Best → Best
  unfolding split in_section bytes_eq
  visit s b =
      let end = split (shown - b.start) b.start shown (in_section s) in
      let k = split (end - b.start) b.start end (λ i. leb (at i) vaddr) in
      if not (bytes_eq (codes s.name) (codes ".text")) || leb shown b.start
      then b
      else if ltb b.start k && leb b.vaddr (at (k - 1))
      then record { row = k - 1; start = end; vaddr = at (k - 1) }
      else record b { start = end }

  unfoldable visit_all : List SectionInfo → Best → Best
  unfolding visit
  visit_all [] b = b
  visit_all (s ∷ rest) b = visit_all rest (visit s b)

unfoldable pub row_index_for : (ℕ → ℕ) → ℕ → List SectionInfo → ℕ → ℕ
unfolding visit_all
row_index_for at shown sections vaddr =
    if shown == 0 then 0 else (visit_all at shown vaddr sections initial).row

-- The position lies in the range, the test holds just before it, and fails at it.
pub record IsBoundary (lo hi : ℕ) (test : ℕ → Bool) (k : ℕ) : Type 0 where
  pub from : lo ≤ k
  pub to : k ≤ hi
  pub before : lo < k → test (k - 1) ≡ true
  pub after : k < hi → test k ≡ false

if_IsBoundary :
    (lo hi : ℕ) (test : ℕ → Bool) (b : Bool) (x y : ℕ)
    → (b ≡ true → IsBoundary lo hi test x)
    → (b ≡ false → IsBoundary lo hi test y)
    → IsBoundary lo hi test (if b then x else y)
if_IsBoundary lo hi test true x y h k = h refl
if_IsBoundary lo hi test false x y h k = k refl

test_at : (test : ℕ → Bool) (b : Bool) (i j : ℕ) → i ≡ j → test i ≡ b → test j ≡ b
test_at test b i j e h = subst (λ n. test n ≡ b) e h

upper_half :
    (lo mid hi k : ℕ) (test : ℕ → Bool)
    → lo ≤ mid
    → test mid ≡ true
    → IsBoundary (suc mid) hi test k
    → IsBoundary lo hi test k
upper_half lo mid hi k test h t found =
    let low = found.from in
    record {
      from = omega arith;
      to = found.to;
      before = λ p. elim (Bool-cases (ltb (suc mid) k)) [
        | inl e ↦ found.before (ltb→lt (suc mid) k e)
        | inr e ↦ test_at test true mid (k - 1) (let l = ltb→le (suc mid) k e in omega arith) t
      ];
      after = found.after;
    }

lower_half :
    (lo mid hi k : ℕ) (test : ℕ → Bool)
    → mid ≤ hi
    → test mid ≡ false
    → IsBoundary lo mid test k
    → IsBoundary lo hi test k
lower_half lo mid hi k test h t found =
    let high = found.to in
    record {
      from = found.from;
      to = omega arith;
      before = found.before;
      after = λ p. elim (Bool-cases (ltb k mid)) [
        | inl e ↦ found.after (ltb→lt k mid e)
        | inr e ↦ test_at test false mid k (let l = ltb→le k mid e in omega arith) t
      ];
    }

omega_absurd : (n : ℕ) → n < n → ⊥
omega_absurd n h = omega arith

no_gap : (lo hi : ℕ) → lo < hi → hi ≤ lo → ⊥
no_gap lo hi h k = omega arith

nothing_left : (lo hi : ℕ) (test : ℕ → Bool) → lo ≤ hi → hi ≤ lo → IsBoundary lo hi test lo
nothing_left lo hi test h k = record {
  from = omega arith;
  to = h;
  before = λ p. elim (omega_absurd lo p) [ ];
  after = λ p. elim (no_gap lo hi p k) [ ];
}

-- The binary search ends at a boundary of the test, whatever the test is, within as many rounds as
-- the range has positions.
pub split-IsBoundary :
    (rounds lo hi : ℕ) (test : ℕ → Bool)
    → lo ≤ hi
    → hi - lo ≤ rounds
    → IsBoundary lo hi test (split rounds lo hi test)
unfolding split
split-IsBoundary zero lo hi test h enough = nothing_left lo hi test h (omega arith)
split-IsBoundary (suc rounds) lo hi test h enough =
    let mid = lo + (hi - lo) / 2 in
    if_IsBoundary lo hi test (ltb lo hi) _ _
      (λ e.
        let inside = ltb→lt lo hi e in
        if_IsBoundary lo hi test (test mid) _ _
          (λ t.
            upper_half lo mid hi _ test (omega arith) t
              (split-IsBoundary rounds (suc mid) hi test (omega arith) (omega arith)))
          (λ t.
            lower_half lo mid hi _ test (omega arith) t
              (split-IsBoundary rounds lo mid test (omega arith) (omega arith))))
      (λ e. nothing_left lo hi test h (ltb→le lo hi e))
