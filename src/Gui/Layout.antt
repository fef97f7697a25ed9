-- ===== src/Gui/Layout.antt =====
-- How a decoded line is laid out in the pane: formatDisasmText and hexByte of src/gui/session.cpp.
use voidwalk.Common.{
  ℕ, ◌-◌, ◌==◌, ltb, if◌then◌else◌, Bool, true, false, not, ◌&&◌, ◌||◌, Bool-cases, inl, inr, [],
  ◌∷◌, ◌++◌, length, ◌≡◌, refl, ap, ◌∙◌, sym, Text, codes, repeated, upper_hex_byte, All,
  All-append, append_nil, append_assoc,
}
use Prim.{tt}

unfoldable pub hex_byte_text : ℕ → Text
unfolding upper_hex_byte
hex_byte_text b = upper_hex_byte b

abbrev pub tab : ℕ
tab = 9

unfoldable pub is_blank : ℕ → Bool
is_blank c = (c == 32) || (c == tab)

unfoldable pub is_nil : Text → Bool
is_nil [] = true
is_nil (c ∷ text) = false

-- The parts before and after the first tab; without one, all of it and nothing
unfoldable pub before_tab : Text → Text
before_tab [] = []
before_tab (c ∷ text) = let rest = before_tab text in if c == tab then [] else c ∷ rest

unfoldable pub after_tab : Text → Text
after_tab [] = []
after_tab (c ∷ text) = let rest = after_tab text in if c == tab then text else rest

-- The lambda trim
unfoldable pub trim_front : Text → Text
unfolding is_blank
trim_front [] = []
trim_front (c ∷ text) = let rest = trim_front text in if is_blank c then rest else c ∷ text

unfoldable pub trim_back : Text → Text
unfolding is_blank is_nil
trim_back [] = []
trim_back (c ∷ text) =
    let rest = trim_back text in if is_blank c && is_nil rest then [] else c ∷ rest

unfoldable pub trim : Text → Text
unfolding trim_front trim_back
trim text = trim_back (trim_front text)

-- kColumn
abbrev pub column : ℕ
column = 7

unfoldable join_columns : Text → Text → Text
unfolding is_nil repeated
join_columns mnemonic operands =
    if is_nil operands
    then mnemonic
    else if ltb (length mnemonic) column
    then mnemonic ++ repeated (column - length mnemonic) 32 ++ operands
    else mnemonic ++ 32 ∷ [] ++ operands

unfoldable pub format_disasm_text : Text → Text
unfolding before_tab after_tab trim join_columns
format_disasm_text raw = join_columns (trim (before_tab raw)) (trim (after_tab raw))

-- A text that begins and ends with no blank, and one without a tab
abbrev pub starts_clear : Text → Bool
starts_clear [] = true
starts_clear (c ∷ text) = not (is_blank c)

abbrev pub ends_clear : Text → Bool
ends_clear [] = true
ends_clear (c ∷ []) = not (is_blank c)
ends_clear (c ∷ d ∷ text) = ends_clear (d ∷ text)

abbrev pub HasNoTab : Text → Type 0
HasNoTab text = All (λ c. c == tab ≡ false) text

before_tab-append : (text rest : Text) → HasNoTab text → before_tab (text ++ tab ∷ rest) ≡ text
unfolding before_tab
before_tab-append [] rest h = refl
before_tab-append (c ∷ text) rest (h, hs) = rw h (ap (◌∷◌ c) (before_tab-append text rest hs))

after_tab-append : (text rest : Text) → HasNoTab text → after_tab (text ++ tab ∷ rest) ≡ rest
unfolding after_tab
after_tab-append [] rest h = refl
after_tab-append (c ∷ text) rest (h, hs) = rw h (after_tab-append text rest hs)

not-true : (b : Bool) → not b ≡ true → b ≡ false
not-true true h = cc
not-true false h = refl

and_false : (b : Bool) → (b && false) ≡ false
and_false true = refl
and_false false = refl

trim_front-clear : (text : Text) → starts_clear text ≡ true → trim_front text ≡ text
unfolding trim_front
trim_front-clear [] h = refl
trim_front-clear (c ∷ text) h = rw (not-true (is_blank c) h) refl

trim_back-clear : (text : Text) → ends_clear text ≡ true → trim_back text ≡ text
unfolding trim_back is_nil
trim_back-clear [] h = refl
trim_back-clear (c ∷ []) h = rw (not-true (is_blank c) h) refl
trim_back-clear (c ∷ d ∷ text) h =
    rw (trim_back-clear (d ∷ text) h) (rw (and_false (is_blank c)) refl)

trim_back-snoc : (text : Text) → ends_clear text ≡ true → trim_back (text ++ 32 ∷ []) ≡ text
unfolding trim_back is_nil is_blank
trim_back-snoc [] h = refl
trim_back-snoc (c ∷ []) h = rw (not-true (is_blank c) h) refl
trim_back-snoc (c ∷ d ∷ text) h =
    rw (trim_back-snoc (d ∷ text) h) (rw (and_false (is_blank c)) refl)

trim-snoc :
    (text : Text)
    → starts_clear text ≡ true
    → ends_clear text ≡ true
    → trim (text ++ 32 ∷ []) ≡ text
unfolding trim trim_front trim_back is_blank
trim-snoc [] h k = refl
trim-snoc (c ∷ text) h k =
    ap trim_back (trim_front-clear (c ∷ text ++ 32 ∷ []) h) ∙ trim_back-snoc (c ∷ text) k

trim-clear : (text : Text) → starts_clear text ≡ true → ends_clear text ≡ true → trim text ≡ text
unfolding trim
trim-clear text h k = ap trim_back (trim_front-clear text h) ∙ trim_back-clear text k

-- Where the operands begin behind a mnemonic
abbrev pub gap : Text → ℕ
gap words = if ltb (length words) column then column - length words else 1

join_columns-gap :
    (words operands : Text)
    → join_columns words operands
      ≡ words ++ (if is_nil operands then [] else repeated (gap words) 32 ++ operands)
unfolding join_columns repeated is_nil
join_columns-gap words [] = sym (append_nil words)
join_columns-gap words (c ∷ operands) = elim (Bool-cases (ltb (length words) column)) [
  | inl e ↦ rw e (append_assoc words _ (c ∷ operands))
  | inr e ↦ rw e (append_assoc words _ (c ∷ operands))
]

HasNoTab-snoc : (words : Text) → HasNoTab words → HasNoTab (words ++ 32 ∷ [])
HasNoTab-snoc words h = All-append (λ c. c == tab ≡ false) words (32 ∷ []) h (refl, tt)

-- A line in the decoder's form, the words, a blank, a tab and the operands, is shown with the operands
-- at column 7, or one blank behind longer words, and without them as the words alone. The words and
-- the operands neither begin nor end with a blank, and the words have no tab.
pub format_disasm_text-columns :
    (words operands : Text)
    → HasNoTab words
    → starts_clear words ≡ true
    → ends_clear words ≡ true
    → starts_clear operands ≡ true
    → ends_clear operands ≡ true
    → format_disasm_text (words ++ codes " \t" ++ operands)
      ≡ words ++ (if is_nil operands then [] else repeated (gap words) 32 ++ operands)
unfolding format_disasm_text
format_disasm_text-columns words operands no_tab sw ew so eo =
    let split : words ++ codes " \t" ++ operands ≡ words ++ 32 ∷ [] ++ tab ∷ operands =
      append_assoc words (codes " \t") operands
      ∙ sym (append_assoc words (32 ∷ []) (tab ∷ operands)) in
    rw split (
      rw (before_tab-append (words ++ 32 ∷ []) operands (HasNoTab-snoc words no_tab)) (
        rw (after_tab-append (words ++ 32 ∷ []) operands (HasNoTab-snoc words no_tab)) (
          rw (trim-snoc words sw ew)
            (rw (trim-clear operands so eo) (join_columns-gap words operands)))))
