-- ===== src/Cli/Outputs.antt =====
-- The files that --print writes: printToConsole of src/cli/print_to_console.hpp.
use voidwalk.Common.{
  if◌then◌else◌, Bool, false, Bool-cases, inl, inr, List, [], ◌∷◌, All, Option, none, some, ◌≡◌,
  Text,
}
use Prim.{Unit, tt}

-- What the loop over the outputs does, in order
pub data Effect : Type 0 where
  skips truncates cannot_open : Text → Effect

-- `same_file` is std::filesystem::equivalent of the input and a path, false on an error; `creates`
-- tells whether an ofstream on the path is good. A path that cannot be opened ends the loop by an
-- exception.
module _ (same_file creates : Text → Bool) where
  unfoldable pub open_outputs : List Text → List Effect
  open_outputs [] = []
  open_outputs (path ∷ paths) =
      let rest = open_outputs paths in
      if same_file path
      then skips path ∷ rest
      else if creates path
      then truncates path ∷ rest
      else cannot_open path ∷ []

  -- The streams that the listing goes to, besides the console; none after an exception
  unfoldable pub streams_of : List Effect → Option (List Text)
  streams_of [] = some []
  streams_of (skips path ∷ effects) = streams_of effects
  streams_of (truncates path ∷ effects) = elim (streams_of effects) [
    | none ↦ none
    | some paths ↦ some (path ∷ paths)
  ]
  streams_of (cannot_open path ∷ effects) = none

  -- An effect that leaves the input alone
  abbrev pub IsHarmless : Effect → Type 0
  IsHarmless (truncates path) = same_file path ≡ false
  IsHarmless (skips path) = Unit
  IsHarmless (cannot_open path) = Unit

  -- No output that is opened, and so truncated, is the binary that is being read, under whatever name
  -- it is given: even when a later output cannot be opened.
  pub open_outputs-IsHarmless : (paths : List Text) → All IsHarmless (open_outputs paths)
  unfolding open_outputs
  open_outputs-IsHarmless [] = tt
  open_outputs-IsHarmless (path ∷ paths) = elim (Bool-cases (same_file path)) [
    | inl same ↦ rw same (tt, open_outputs-IsHarmless paths)
    | inr other ↦ elim (Bool-cases (creates path)) [
      | inl good ↦ rw other (rw good (other, open_outputs-IsHarmless paths))
      | inr bad ↦ rw other (rw bad (tt, tt))
    ]
  ]
