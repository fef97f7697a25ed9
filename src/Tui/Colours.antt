-- ===== src/Tui/Colours.antt =====
-- The words of the renderer, src/arch/x86_64/x86_64_mnemonic.hpp, have their colours in
-- src/tui/syntax.cpp.
use voidwalk.Common.{
  ℕ, zero, suc, ◌<◌, ◌==◌, ltb, if◌then◌else◌, Bool, true, false, not, ◌&&◌, ◌||◌, Bool-cases, inl,
  inr, String, List, [], ◌∷◌, length, ◌≡◌, refl, arith, codes, bytes_eq,
}
use voidwalk.X86.Registers.{register_of, name_at, names8, names8_rex, names16, names32, names64}
use voidwalk.Tui.Syntax.{is_register, lower, one_of, member, numbered, products}

unfoldable colours : List String → Bool
unfolding is_register lower
colours [] = true
colours (name ∷ names) = is_register (lower (codes name)) && colours names

and_both : (a b : Bool) → (a && b) ≡ true → (a ≡ true) × (b ≡ true)
and_both true b h = (refl, h)
and_both false b h = cc

none_below : {n : ℕ} → n < 0 → ⊥
none_below h = omega arith

is_register-name_at :
    (names : List String) (i : ℕ)
    → colours names ≡ true
    → i < length names
    → is_register (lower (codes (name_at names i))) ≡ true
unfolding colours
is_register-name_at [] i h k = elim (none_below k) [ ]
is_register-name_at (name ∷ names) zero h k = (and_both _ _ h).0
is_register-name_at (name ∷ names) (suc i) h k =
    is_register-name_at names i (and_both _ _ h).1 (omega arith)

coloured8 : (colours names8 ≡ true) × (colours names8_rex ≡ true)
unfolding colours one_of member numbered products bytes_eq
coloured8 = (refl, refl)

coloured : (colours names16 ≡ true) × (colours names32 ≡ true) × (colours names64 ≡ true)
unfolding colours one_of member numbered products bytes_eq
coloured = (refl, refl, refl)

abbrev IsColoured : String → Type 0
IsColoured name = is_register (lower (codes name)) ≡ true

if_IsColoured :
    (b : Bool) (x y : String)
    → (b ≡ true → IsColoured x)
    → (b ≡ false → IsColoured y)
    → IsColoured (if b then x else y)
if_IsColoured true x y h k = h refl
if_IsColoured false x y h k = k refl

is_8 : (bits : ℕ) → bits == 8 ≡ true → bits ≡ 8
is_8 bits h = ground arith

-- What the guard of registerOf leaves out
named :
    (number bits : ℕ) (has_rex : Bool)
    → number < 16
    → (bits ≡ 8 → has_rex ≡ false → number < 8)
    → (ltb 15 number || (bits == 8) && not has_rex && ltb 7 number) ≡ true
    → ⊥
named number bits true h k bad = ground arith
named number bits false h k bad = elim (Bool-cases (bits == 8)) [
  | inl e ↦ let small = k (is_8 bits e) refl in ground arith
  | inr e ↦ ground arith
]

narrow-IsColoured :
    (number : ℕ) (has_rex : Bool)
    → number < 16
    → (has_rex ≡ false → number < 8)
    → IsColoured (name_at (if has_rex then names8_rex else names8) number)
narrow-IsColoured number true h k = is_register-name_at names8_rex number coloured8.1 h
narrow-IsColoured number false h k = is_register-name_at names8 number coloured8.0 (k refl)

-- Every name of a general register, of whatever width, is coloured as a register. Without a REX prefix
-- the 8-bit registers are the first eight.
pub register_of-is_register :
    (number bits : ℕ) (has_rex : Bool)
    → number < 16
    → (bits ≡ 8 → has_rex ≡ false → number < 8)
    → is_register (lower (codes (register_of number bits has_rex))) ≡ true
unfolding register_of
register_of-is_register number bits has_rex h k =
    if_IsColoured (ltb 15 number || (bits == 8) && not has_rex && ltb 7 number) _ _
      (λ bad. elim (named number bits has_rex h k bad) [ ])
      (λ good.
        if_IsColoured (bits == 8) _ _
          (λ narrow. narrow-IsColoured number has_rex h (k (is_8 bits narrow)))
          (λ _.
            if_IsColoured (bits == 16) _ _ (λ _. is_register-name_at names16 number coloured.0 h)
              (λ _.
                if_IsColoured (bits == 64) _ _
                  (λ _. is_register-name_at names64 number coloured.2 h)
                  (λ _. is_register-name_at names32 number coloured.1 h))))
