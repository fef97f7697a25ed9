-- ===== src/Tui/Tokens.antt =====
-- The tokens of src/tui/syntax.cpp are the text, and the words of the renderer have their colours.
use voidwalk.Common.{
  ℕ, zero, suc, ◌≤◌, ◌<◌, ◌==◌, if◌then◌else◌, Bool, true, false, ◌||◌, Bool-cases, inl, inr, List,
  [], ◌∷◌, ◌++◌, length, All, ◌≡◌, refl, ap, ◌∙◌, arith, Text, append_nil, length-append,
}
use Prim.{tt}
use voidwalk.Tui.Syntax.{
  Token, Role, tokenize, tokenize_from, word_of, after_word, signed_word, after_signed, punct_of,
  after_punct, starts_word, neg_hex, is_word_char,
}

-- The texts of the tokens, one after the other
unfoldable pub joined : List Token → Text
joined [] = []
joined (t ∷ tokens) = t.text ++ joined tokens

word-split : (text : Text) → word_of text ++ after_word text ≡ text
unfolding word_of after_word
word-split [] = refl
word-split (c ∷ text) = elim (Bool-cases (is_word_char c)) [
  | inl e ↦ rw e (ap (◌∷◌ c) (word-split text))
  | inr e ↦ rw e refl
]

signed-split : (text : Text) → signed_word text ++ after_signed text ≡ text
unfolding signed_word after_signed
signed-split [] = refl
signed-split (c ∷ text) = elim (Bool-cases (c == b'-')) [
  | inl e ↦ rw e (ap (◌∷◌ c) (word-split text))
  | inr e ↦ rw e (word-split (c ∷ text))
]

punct-split : (text : Text) → punct_of text ++ after_punct text ≡ text
unfolding punct_of after_punct
punct-split [] = refl
punct-split (c ∷ text) = elim (Bool-cases (starts_word (c ∷ text) || c == b';')) [
  | inl e ↦ rw e refl
  | inr e ↦ rw e (ap (◌∷◌ c) (punct-split text))
]

dashed : {b : Bool} → b ≡ false → b ≡ true → ⊥
dashed h k = cc

none_left : {n : ℕ} → suc n ≤ 0 → ⊥
none_left h = omega arith

or_right : (a b : Bool) → a ≡ false → (a || b) ≡ true → b ≡ true
or_right true b h k = cc
or_right false b h k = k

neg_hex-dash : (c : ℕ) (text : Text) → neg_hex (c ∷ text) ≡ true → c == b'-' ≡ true
unfolding neg_hex
neg_hex-dash c [] h = cc
neg_hex-dash c (d ∷ text) h = ground arith

signed-positive :
    (c : ℕ) (text : Text) → starts_word (c ∷ text) ≡ true → 0 < length (signed_word (c ∷ text))
unfolding starts_word signed_word word_of
signed-positive c text h = elim (Bool-cases (c == b'-')) [
  | inl e ↦ rw e (omega arith)
  | inr e ↦ elim (Bool-cases (is_word_char c)) [
    | inl w ↦ rw e (rw w (omega arith))
    | inr w ↦ elim (dashed e (neg_hex-dash c text (or_right _ _ w h))) [ ]
  ]
]

punct-positive :
    (c : ℕ) (text : Text)
    → starts_word (c ∷ text) ≡ false
    → c == b';' ≡ false
    → 0 < length (punct_of (c ∷ text))
unfolding punct_of
punct-positive c text h k = rw h (rw k (omega arith))

-- The tokens, each of at least one character, are the text.
pub record Covers (text : Text) (tokens : List Token) : Type 0 where
  pub all_of_it : joined tokens ≡ text
  pub positive : All (λ t. 0 < length t.text) tokens

Covers-cons :
    (part rest text : Text) (role : Role) (tokens : List Token)
    → part ++ rest ≡ text
    → 0 < length part
    → Covers rest tokens
    → Covers text (record { text = part; role = role } ∷ tokens)
unfolding joined
Covers-cons part rest text role tokens e h covers = record {
  all_of_it = ap (part ++◌) covers.all_of_it ∙ e;
  positive = (h, covers.positive);
}

if_Covers :
    (text : Text) (b : Bool) (x y : List Token)
    → (b ≡ true → Covers text x)
    → (b ≡ false → Covers text y)
    → Covers text (if b then x else y)
if_Covers text true x y h k = h refl
if_Covers text false x y h k = k refl

-- What is left after a part that is not empty
left_over :
    (part rest text : Text) (n : ℕ)
    → part ++ rest ≡ text
    → 0 < length part
    → length text ≤ suc n
    → length rest ≤ n
left_over part rest text n e h k =
    let sum = length-append part rest in let same = ap length e in omega (arith, sum, same)

tokenize_from-Covers :
    (rounds : ℕ) (branch seen : Bool) (text : Text)
    → length text ≤ rounds
    → Covers text (tokenize_from rounds branch seen text)
unfolding tokenize_from joined
tokenize_from-Covers zero branch seen [] h = record { all_of_it = refl; positive = tt }
tokenize_from-Covers zero branch seen (c ∷ text) h = elim (none_left h) [ ]
tokenize_from-Covers (suc rounds) branch seen [] h = record { all_of_it = refl; positive = tt }
tokenize_from-Covers (suc rounds) branch seen (c ∷ text) h =
    let all = c ∷ text in
    if_Covers all (c == b';') _ _
      (λ _. record { all_of_it = append_nil all; positive = (omega arith, tt) })
      (λ other.
        if_Covers all (starts_word all) _ _
          (λ e.
            let some_part = signed-positive c text e in
            Covers-cons (signed_word all) (after_signed all) all _ _ (signed-split all) some_part (
              tokenize_from-Covers rounds branch _ (after_signed all)
                (left_over (signed_word all) _ all rounds (signed-split all) some_part h)))
          (λ e.
            let some_part = punct-positive c text e other in
            Covers-cons (punct_of all) (after_punct all) all _ _ (punct-split all) some_part (
              tokenize_from-Covers rounds branch seen (after_punct all)
                (left_over (punct_of all) _ all rounds (punct-split all) some_part h))))

-- The tokens of a line, each of at least one character, are the line: the colouring neither drops nor
-- adds a character, and its loop ends.
pub tokenize-Covers : (text : Text) (branch : Bool) → Covers text (tokenize text branch)
unfolding tokenize
tokenize-Covers text branch = tokenize_from-Covers (length text) branch false text (omega arith)
