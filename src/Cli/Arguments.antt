-- ===== src/Cli/Arguments.antt =====
-- Which interface the arguments select, and what a failure says: run and message of src/main.cpp, and
-- start of src/cli/console.hpp.
use voidwalk.Common.{
  ℕ, suc, ◌==◌, ltb, if◌then◌else◌, Bool, true, false, not, ◌||◌, List, [], ◌∷◌, ◌++◌, length,
  Option, none, some, ◌≡◌, refl, sym, arith, Text, codes, bytes_eq, bytes_eq→eq, String,
}
use mathlib.Core.Path.{subst}

-- The loop over argv[0]: what follows the last separator, if there is one
unfoldable pub after_last : Text → Option Text
after_last [] = none
after_last (c ∷ rest) = elim (after_last rest) [
  | none ↦ if (c == b'/') || (c == b'\\') then some rest else none
  | some later ↦ some later
]

unfoldable pub base_name : Text → Text
unfolding after_last
base_name path = elim (after_last path) [ none ↦ path | some name ↦ name ]

unfoldable pub program_name : List Text → Text
unfolding base_name
program_name [] = codes "voidwalk"
program_name (path ∷ args) =
    let name = base_name path in if bytes_eq name [] then codes "voidwalk" else name

-- What run does with its arguments, up to the call of an interface. A usage error is an
-- std::invalid_argument, by its text.
pub data Command : Type 0 where
  show_help gui : Command
  print : Text → List Text → Command
  dump_hex : Text → Command
  tui : Text → Command
  usage_error : Text → Command

abbrev is : String → Text → Bool
is name text = bytes_eq text (codes name)

-- cli::start, from the argument behind the command on
unfoldable pub start : Text → List Text → Command
start command [] = usage_error (command ++ codes " needs a <binary>")
start command (path ∷ rest) =
    if is "--print" command
    then print path rest
    else if ltb 0 (length rest)
    then usage_error (codes "--dump-hex takes exactly one <binary>")
    else dump_hex path

-- `mode.empty() || mode[0] != '-'`
unfoldable pub is_bare : Text → Bool
is_bare [] = true
is_bare (c ∷ mode) = not (c == b'-')

-- The arguments behind argv[0] are the mode and the rest.
unfoldable pub open_tui : Text → List Text → Command
unfolding is_bare
open_tui mode [] =
    if is_bare mode
    then tui mode
    else if is "--tui" mode
    then usage_error (codes "--tui takes exactly one <binary>")
    else usage_error (codes "unknown option '" ++ mode ++ codes "'")
open_tui mode (path ∷ rest) =
    if is_bare mode
    then usage_error (codes "expected a single <binary>")
    else if is "--tui" mode
    then (if ltb 0 (length rest)
        then usage_error (codes "--tui takes exactly one <binary>")
        else tui path)
    else usage_error (codes "unknown option '" ++ mode ++ codes "'")

unfoldable pub run_mode : Text → List Text → Command
unfolding start open_tui
run_mode mode rest =
    if is "--help" mode || is "-h" mode
    then show_help
    else if is "--print" mode || is "--dump-hex" mode
    then start mode rest
    else if is "--gui" mode
    then gui
    else open_tui mode rest

unfoldable pub run : List Text → Command
unfolding run_mode
run [] = run_mode (codes "--gui") []
run (exe ∷ []) = run_mode (codes "--gui") []
run (exe ∷ mode ∷ rest) = run_mode mode rest

-- message: the core's prefix, and the blanks and line ends at the end
unfoldable pub without_start : Text → Text → Option Text
without_start [] text = some text
without_start (c ∷ start) [] = none
without_start (c ∷ start) (d ∷ text) = if c == d then without_start start text else none

unfoldable pub is_trailing : ℕ → Bool
is_trailing c = (c == 10) || (c == 32)

unfoldable pub pop_trailing : Text → Text
unfolding is_trailing
pop_trailing [] = []
pop_trailing (c ∷ text) =
    let rest = pop_trailing text in
    elim rest [ [] ↦ if is_trailing c then [] else c ∷ [] | d ∷ more ↦ c ∷ d ∷ more ]

unfoldable pub message : Text → Text
unfolding without_start pop_trailing
message text = elim (without_start (codes "[voidwalk] : ") text) [
  | none ↦ pop_trailing text
  | some rest ↦ pop_trailing rest
]

-- The ways in which the arguments select the terminal interface on a path
pub data OpensTui (path : Text) : List Text → Type 0 where
  by_path : (exe : Text) → is_bare path ≡ true → OpensTui path (exe ∷ path ∷ [])
  by_option : (exe : Text) → OpensTui path (exe ∷ codes "--tui" ∷ path ∷ [])

-- The last branch, taken with a mode that is none of the other options
if_tui :
    (b : Bool) (x y : Command) (path : Text) (Goal : Type 0)
    → (if b then x else y) ≡ tui path
    → (b ≡ true → x ≡ tui path → Goal)
    → (b ≡ false → y ≡ tui path → Goal)
    → Goal
if_tui true x y path Goal e h k = h refl e
if_tui false x y path Goal e h k = k refl e

start-tui : (command : Text) (rest : List Text) (path : Text) → start command rest ≡ tui path → ⊥
unfolding start
start-tui command [] path e = cc
start-tui command (p ∷ rest) path e =
    if_tui (is "--print" command) _ _ path ⊥ e (λ _ e1. cc)
      (λ _ e1. if_tui (ltb 0 (length rest)) _ _ path ⊥ e1 (λ _ e2. cc) (λ _ e2. cc))

tui_injective : {a b : Text} → tui a ≡ tui b → a ≡ b
tui_injective h = cc

some_rest : (n : ℕ) → ltb 0 (suc n) ≡ false → ⊥
some_rest n h = ground arith

no_tui : (path : Text) → run_mode (codes "--gui") [] ≡ tui path → ⊥
unfolding run_mode bytes_eq
no_tui path h = cc

open_tui-OpensTui :
    (exe mode : Text) (rest : List Text) (path : Text)
    → open_tui mode rest ≡ tui path
    → OpensTui path (exe ∷ mode ∷ rest)
unfolding open_tui
open_tui-OpensTui exe mode [] path e =
    if_tui (is_bare mode) _ _ path (OpensTui path (exe ∷ mode ∷ [])) e
      (λ bare e1. subst (λ p. OpensTui p (exe ∷ mode ∷ [])) (tui_injective e1) (by_path exe bare))
      (λ _ e1. if_tui (is "--tui" mode) _ _ path _ e1 (λ _ e2. cc) (λ _ e2. cc))
open_tui-OpensTui exe mode (p ∷ []) path e =
    if_tui (is_bare mode) _ _ path (OpensTui path (exe ∷ mode ∷ p ∷ [])) e (λ _ e1. cc)
      (λ _ e1.
        if_tui (is "--tui" mode) _ _ path _ e1
          (λ same e2.
            subst (λ m. OpensTui path (exe ∷ m ∷ p ∷ []))
              (sym (bytes_eq→eq mode (codes "--tui") same))
              (subst (λ q. OpensTui q (exe ∷ codes "--tui" ∷ p ∷ [])) (tui_injective e2)
                (by_option exe)))
          (λ _ e2. cc))
open_tui-OpensTui exe mode (p ∷ q ∷ rest) path e =
    if_tui (is_bare mode) _ _ path (OpensTui path (exe ∷ mode ∷ p ∷ q ∷ rest)) e (λ _ e1. cc)
      (λ _ e1.
        if_tui (is "--tui" mode) _ _ path _ e1
          (λ _ e2.
            if_tui (ltb 0 (length (q ∷ rest))) _ _ path _ e2 (λ _ e3. cc)
              (λ none e3. elim (some_rest (length rest) none) [ ]))
          (λ _ e2. cc))

run_mode-OpensTui :
    (exe mode : Text) (rest : List Text) (path : Text)
    → run_mode mode rest ≡ tui path
    → OpensTui path (exe ∷ mode ∷ rest)
unfolding run_mode
run_mode-OpensTui exe mode rest path e =
    if_tui (is "--help" mode || is "-h" mode) _ _ path (OpensTui path (exe ∷ mode ∷ rest)) e
      (λ _ e1. cc)
      (λ _ e1.
        if_tui (is "--print" mode || is "--dump-hex" mode) _ _ path _ e1
          (λ _ e2. elim (start-tui mode rest path e2) [ ])
          (λ _ e2.
            if_tui (is "--gui" mode) _ _ path _ e2 (λ _ e3. cc)
              (λ _ e3. open_tui-OpensTui exe mode rest path e3)))

-- The terminal interface opens on a path only if that is the one argument and does not begin with a
-- dash, or the one argument behind --tui.
pub run-OpensTui : (args : List Text) (path : Text) → run args ≡ tui path → OpensTui path args
unfolding run
run-OpensTui [] path e = elim (no_tui path e) [ ]
run-OpensTui (exe ∷ []) path e = elim (no_tui path e) [ ]
run-OpensTui (exe ∷ mode ∷ rest) path e = run_mode-OpensTui exe mode rest path e
