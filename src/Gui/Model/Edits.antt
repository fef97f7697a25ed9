-- ===== src/Gui/Model/Edits.antt =====
-- The edits of the instruction column, in DisasmModel of src/gui/panes/disassembly_pane.cpp.
use voidwalk.Common.{
  arith, ℕ, ◌<◌, ◌≡◌, refl, inl, inr, ◌==◌, Bool-cases, if◌then◌else◌, List, [], ◌∷◌, some, Text,
}
use voidwalk.Gui.Rows.{GuiSession, row_count}
use voidwalk.Gui.Model.{
  DisasmModel, instruction, display, edit, shown, edit_of, put_edit, set_data, data_at,
  data_of_role, cell,
}
use voidwalk.Gui.Rows.Refreshed.{lt→leb}

edit_of-put_edit :
    (edits : List (ℕ × Text)) (row j : ℕ) (text : Text)
    → edit_of (put_edit edits row text) j ≡ (if row == j then some text else edit_of edits j)
unfolding edit_of put_edit
edit_of-put_edit [] row j text = refl
edit_of-put_edit ((r, old) ∷ rest) row j text = ground (arith, edit_of-put_edit rest row j text)

-- What setData has stored for a row, data gives back for the Instruction cell of that row, in place of
-- the decoded text, and the Instruction cell of every other row is what it was.
pub data-set_data :
    (s : GuiSession) (m : DisasmModel) (row j : ℕ) (text : Text)
    → j < m.rows
    → j < row_count s
    → data_at
        (some s)
        (some (j, instruction))
        display
        (set_data (some (row, instruction)) text edit m).1.0
      ≡ (if row == j then some (shown text) else data_at (some s) (some (j, instruction)) display m)
unfolding data_at data_of_role cell set_data
data-set_data s m row j text known counted = rw (lt→leb j m.rows known) (
    rw (lt→leb j (row_count s) counted) (
      rw (cell, edit_of-put_edit m.edits row j text)
        (elim (Bool-cases (row == j)) [ inl e ↦ rw e refl | inr e ↦ rw e refl ])))
