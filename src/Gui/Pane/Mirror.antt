-- ===== src/Gui/Pane/Mirror.antt =====
-- The rows of the table and what its view was told, in src/gui/panes/disassembly_pane.cpp.
use voidwalk.Common.{ℕ, suc, ◌≡◌, ◌==◌, ltb, if◌then◌else◌, ◌&&◌, List, [], ◌∷◌, Option, none, some}
use voidwalk.Gui.Model.{
  Signal, Changed, rows_inserted, rows_removed, model_reset, data_changed, edits_changed,
}

-- The number of rows of a view behind a signal, for which it must fit what the view has: rows are
-- inserted at its end and removed from its end.
unfoldable pub view_after : Signal → ℕ → Option ℕ
view_after (rows_inserted first last) n =
    if (first == n) && ltb n (suc last) then some (suc last) else none
view_after (rows_removed first last) n = if (suc last == n) && ltb first n then some first else none
view_after (model_reset n) _ = some n
view_after (data_changed a b) n = some n
view_after edits_changed n = some n

unfoldable pub replay : List Signal → ℕ → Option ℕ
unfolding view_after
replay [] n = some n
replay (signal ∷ rest) n = elim (view_after signal n) [ none ↦ none | some m ↦ replay rest m ]

-- The signals of a change take the rows of the view from those of the model before to those after.
abbrev Mirrors : ℕ → Changed → Type 0
Mirrors n c = replay c.1 n ≡ some c.0.rows
