-- ===== src/X86/OneByte/Groups.antt =====
-- The group numbers in the one-byte rows of src/arch/x86_64/x86_64_tables.cpp: each of them has a
-- table, so that groupTableOf does not throw for a row that isGroup accepts.
use voidwalk.Common.{
  ℕ, zero, suc, ◌≤◌, ◌<◌, ◌≡◌, refl, sym, ◌∙◌, ◌/◌, ◌%◌, ◌==◌, ltb, ltb→lt, Bool, true, false, not,
  ◌&&◌, inl, inr, Bool-cases, if◌then◌else◌, List, [], ◌∷◌, Result, ok, err, ◌>>=◌, arith,
}
use voidwalk.X86.Types.{OpcodeInfo, empty_info, Write, row_at}
use mathlib.Core.Path.{subst}
use voidwalk.X86.Opcode.{code_of}
use voidwalk.X86.Rows.{p, p16, pg, pg16, inv, t64, d64, f64}
use voidwalk.X86.X87.{is_x87}
use voidwalk.X86.OneByte.{
  opcode_table, is_group, group_no_of, group_rows, group_table_of, group_entry_of, resolved_info,
}
use voidwalk.X86.OneByte.Arithmetic.{opcodes_arithmetic}
use voidwalk.X86.OneByte.Stack.{opcodes_stack}
use voidwalk.X86.OneByte.Moves.{opcodes_moves}
use voidwalk.X86.OneByte.Control.{opcodes_control}
use voidwalk.X86.OneByte.LongMode.{removed_in_long_mode, names_in_long_mode, default_sizes}

unfoldable indices_below : ℕ → List Write → Bool
indices_below n [] = true
indices_below n ((i, change) ∷ writes) = ltb i n && indices_below n writes

row_at-outside :
    (writes : List Write) (n : ℕ) (row : OpcodeInfo) (index : ℕ)
    → indices_below n writes ≡ true
    → n ≤ index
    → row_at writes row index ≡ row
unfolding row_at indices_below
row_at-outside [] n row index h le = refl
row_at-outside ((i, change) ∷ writes) n row index h le =
    let below = row_at-outside writes n row index in ground (arith, below)

opcode_table-outside : (opcode : ℕ) → 256 ≤ opcode → opcode_table opcode ≡ empty_info
unfolding opcode_table indices_below opcodes_arithmetic opcodes_stack opcodes_moves opcodes_control
    removed_in_long_mode names_in_long_mode default_sizes p p16 pg pg16 inv t64 d64 f64 code_of
opcode_table-outside opcode le =
    let out = λ (writes : List Write) (row : OpcodeInfo) (h : indices_below 256 writes ≡ true).
      row_at-outside writes 256 row opcode h le in
    out default_sizes _ refl
    ∙ out names_in_long_mode _ refl
    ∙ out removed_in_long_mode _ refl
    ∙ out opcodes_control _ refl
    ∙ out opcodes_moves _ refl
    ∙ out opcodes_stack _ refl
    ∙ out opcodes_arithmetic empty_info refl

unfoldable is_ok {ℓ} : {A : Type ℓ} → Result A → Bool
is_ok (ok a) = true
is_ok (err e) = false

unfoldable has_table : ℕ → Bool
unfolding is_ok is_group group_table_of opcode_table
has_table opcode = if is_group opcode then is_ok (group_table_of opcode) else true

unfoldable all_below : (ℕ → Bool) → ℕ → Bool
all_below test zero = true
all_below test (suc n) = test n && all_below test n

all_below-true : (test : ℕ → Bool) (n i : ℕ) → all_below test n ≡ true → i < n → test i ≡ true
unfolding all_below
all_below-true test zero i h lt = ground arith
all_below-true test (suc n) i h lt = elim (Bool-cases (i == n)) [
  | inl e ↦ subst (λ k. test k ≡ true) (sym (same i n e)) (and_left (test n) _ h)
  | inr e ↦ all_below-true test n i (and_right (test n) _ h) (smaller i n e lt)
]
  where
    same : (i n : ℕ) → i == n ≡ true → i ≡ n
    same i n h = ground arith

    smaller : (i n : ℕ) → i == n ≡ false → i < suc n → i < n
    smaller i n h lt = ground arith

    and_left : (a b : Bool) → (a && b) ≡ true → a ≡ true
    and_left true b h = refl
    and_left false b h = h

    and_right : (a b : Bool) → (a && b) ≡ true → b ≡ true
    and_right true b h = h
    and_right false b h = cc

tables_present : all_below has_table 256 ≡ true
unfolding all_below has_table is_ok is_group group_table_of group_rows group_no_of opcode_table
    row_at opcodes_arithmetic opcodes_stack opcodes_moves opcodes_control removed_in_long_mode
    names_in_long_mode default_sizes p p16 pg pg16 inv t64 d64 f64 code_of
tables_present = refl

has_table-all : (opcode : ℕ) → has_table opcode ≡ true
unfolding has_table is_group
has_table-all opcode = elim (Bool-cases (ltb opcode 256)) [
  | inl h ↦ all_below-true has_table 256 opcode tables_present (ltb→lt opcode 256 h)
  | inr h ↦ rw (opcode_table-outside opcode (ground arith)) refl
]

is_ok-some {ℓ} : {A : Type ℓ} (r : Result A) → is_ok r ≡ true → (a : A) × (r ≡ ok a)
unfolding is_ok
is_ok-some (ok a) h = (a, refl)
is_ok-some (err e) h = cc

group_table_of-some :
    (opcode : ℕ) → is_group opcode ≡ true → (rows : List Write) × (group_table_of opcode ≡ ok rows)
unfolding has_table
group_table_of-some opcode h =
    let present = has_table-all opcode in
    is_ok-some (group_table_of opcode) (chosen (is_group opcode) _ h present)
  where
    chosen : (b c : Bool) → b ≡ true → (if b then c else true) ≡ true → c ≡ true
    chosen true c h k = k
    chosen false c h k = cc

is_ok-if {ℓ} :
    {A : Type ℓ} (b : Bool) (m n : Result A)
    → (b ≡ true → is_ok m ≡ true)
    → (b ≡ false → is_ok n ≡ true)
    → is_ok (if b then m else n) ≡ true
is_ok-if true m n h k = h refl
is_ok-if false m n h k = k refl

group_entry_of-is_ok :
    (opcode reg : ℕ) (f : OpcodeInfo → OpcodeInfo)
    → is_group opcode ≡ true
    → is_ok (group_entry_of opcode reg >>= λ entry. ok (f entry)) ≡ true
unfolding is_ok group_entry_of
group_entry_of-is_ok opcode reg f h = let (rows, e) = group_table_of-some opcode h in rw e refl

not-not : (b : Bool) → not b ≡ false → b ≡ true
not-not true h = refl
not-not false h = cc

-- Every opcode and every ModRM byte select a row, in both modes.
pub resolved_info-total :
    (opcode mod_rm : ℕ) (is_64bit : Bool)
    → (info : OpcodeInfo) × (resolved_info opcode mod_rm is_64bit ≡ ok info)
unfolding resolved_info is_ok
resolved_info-total opcode mod_rm is_64bit = is_ok-some (resolved_info opcode mod_rm is_64bit) (
    is_ok-if (is_x87 opcode) _ _ (λ _. refl)
      (λ _.
        is_ok-if (is_64bit && (opcode == 0x63)) _ _ (λ _. refl)
          (λ _.
            is_ok-if ((mod_rm == 0xf8) && (opcode == 0xc6)) _ _ (λ _. refl)
              (λ _.
                is_ok-if ((mod_rm == 0xf8) && (opcode == 0xc7)) _ _ (λ _. refl)
                  (λ _.
                    is_ok-if (not (is_group opcode)) _ _ (λ _. refl)
                      (λ h.
                        group_entry_of-is_ok opcode (mod_rm / 8 % 8) _
                          (not-not (is_group opcode) h)))))))
