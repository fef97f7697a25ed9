-- ===== src/Gui/Strings.antt =====
-- The printable runs of a section: collectStrings of src/gui/symbols.cpp and the scan in
-- collectSymbols of src/tui/session.cpp.
use voidwalk.Common.{
  ℕ, suc, ◌+◌, ◌≤◌, ◌<◌, leb, if◌then◌else◌, Bool, true, ◌&&◌, Bool-cases, inl, inr, List, [], ◌∷◌,
  ◌++◌, length, length-append, All, All-append, append_nil, append_assoc, ◌≡◌, refl, sym, ap, ◌∙◌,
  arith, Text,
}
use Prim.{tt}

unfoldable pub printable : ℕ → Bool
printable b = leb 0x20 b && leb b 0x7e

-- kMinStringLen
abbrev pub min_string_len : ℕ
min_string_len = 4

-- A run, behind the position at which it starts
abbrev pub Run : Type 0
Run = ℕ × Text

-- The lambda flush
unfoldable pub flush : Run → List Run → List Run
flush (start, run) rest = if leb min_string_len (length run) then (start, run) ∷ rest else rest

-- `runStart` before the byte at position `i`
unfoldable pub next_start : ℕ → Run → ℕ
next_start i (start, []) = i
next_start i (start, c ∷ run) = start

-- The loop from position `i` on, with the run that is open
unfoldable pub runs_from : ℕ → Run → List ℕ → List Run
unfolding printable flush next_start
runs_from i (start, run) [] = flush (start, run) []
runs_from i (start, run) (b ∷ raw) =
    let more = printable b in
    let rest =
      runs_from (suc i)
        (if more then next_start i (start, run) else start, if more then run ++ b ∷ [] else [])
        raw in
    if more then rest else flush (start, run) rest

unfoldable pub runs : List ℕ → List Run
unfolding runs_from
runs raw = runs_from 0 (0, []) raw

-- The run stands in the bytes at its position, has the least length, and is printable.
pub record IsRun (raw : List ℕ) (r : Run) : Type 0 where
  pub before : List ℕ
  pub behind : List ℕ
  pub is_in : before ++ r.1 ++ behind ≡ raw
  pub starts : length before ≡ r.0
  pub long : min_string_len ≤ length r.1
  pub clear : All (λ b. printable b ≡ true) r.1

four_or_more : (n : ℕ) → leb min_string_len n ≡ true → min_string_len ≤ n
four_or_more n h = ground arith

none_below : {n : ℕ} → n < 0 → ⊥
none_below h = omega arith

moved : (done run raw : List ℕ) (b : ℕ) → done ++ (run ++ b ∷ []) ++ raw ≡ done ++ run ++ (b ∷ raw)
moved done run raw b =
    ap (λ xs. xs ++ raw) (sym (append_assoc done run (b ∷ [])))
    ∙ append_assoc (done ++ run) (b ∷ []) raw

flush-IsRun :
    (raw before behind : List ℕ) (start : ℕ) (run : Text) (rest : List Run)
    → before ++ run ++ behind ≡ raw
    → (0 < length run → length before ≡ start)
    → All (λ b. printable b ≡ true) run
    → All (IsRun raw) rest
    → All (IsRun raw) (flush (start, run) rest)
unfolding flush
flush-IsRun raw before behind start run rest e s p h =
    elim (Bool-cases (leb min_string_len (length run))) [
      | inl long ↦
          let enough = four_or_more (length run) long in
          rw long (
            record {
              before = before;
              behind = behind;
              is_in = e;
              starts = s (omega arith);
              long = enough;
              clear = p;
            },
            h,
          )
      | inr short ↦ rw short h
    ]

start-next_start :
    (done : List ℕ) (i start : ℕ) (run : Text)
    → length done + length run ≡ i
    → (0 < length run → length done ≡ start)
    → length done ≡ next_start i (start, run)
unfolding next_start
start-next_start done i start [] e s = omega (arith, e)
start-next_start done i start (c ∷ run) e s = s (omega arith)

runs_from-IsRun :
    (whole done : List ℕ) (i start : ℕ) (run : Text) (raw : List ℕ)
    → done ++ run ++ raw ≡ whole
    → length done + length run ≡ i
    → (0 < length run → length done ≡ start)
    → All (λ b. printable b ≡ true) run
    → All (IsRun whole) (runs_from i (start, run) raw)
unfolding runs_from
runs_from-IsRun whole done i start run [] e n s p = flush-IsRun whole done [] start run [] e s p tt
runs_from-IsRun whole done i start run (b ∷ raw) e n s p =
    let size = length-append run (b ∷ []) in
    let taken = length-append (done ++ run) (b ∷ []) in
    let both = length-append done run in
    elim (Bool-cases (printable b)) [
      | inl more ↦ rw more (
          runs_from-IsRun whole done (suc i) (next_start i (start, run)) (run ++ b ∷ []) raw
            (moved done run raw b ∙ e) (omega (arith, n, size))
            (λ _. start-next_start done i start run n s)
            (All-append (λ c. printable c ≡ true) run (b ∷ []) p (more, tt)))
      | inr no_more ↦ rw no_more (
          flush-IsRun whole done (b ∷ raw) start run _ e s p (
            runs_from-IsRun whole (done ++ run ++ b ∷ []) (suc i) start [] raw
              (ap (λ xs. xs ++ raw) (append_nil (done ++ run ++ b ∷ []))
                ∙ append_assoc (done ++ run) (b ∷ []) raw
                ∙ e)
              (omega (arith, n, taken, both)) (λ h. elim (none_below h) [ ]) tt))
    ]

-- Every string that is listed stands in the section's bytes at its position, has four characters or
-- more, and all of them are printable.
pub runs-IsRun : (raw : List ℕ) → All (IsRun raw) (runs raw)
unfolding runs
runs-IsRun raw = runs_from-IsRun raw [] 0 0 [] raw refl (omega arith) (λ h. refl) tt
