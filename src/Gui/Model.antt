-- ===== src/Gui/Model.antt =====
-- The table model of the disassembly pane: DisasmModel of src/gui/panes/disassembly_pane.hpp and
-- src/gui/panes/disassembly_pane.cpp. The signals to the view are part of what an operation gives.
pub mod Edits
use voidwalk.Common.{
  ℕ, zero, suc, ◌-◌, ◌%◌, ◌^◌, ◌==◌, ltb, leb, if◌then◌else◌, Bool, true, false, ◌||◌, List, [],
  ◌∷◌, ◌++◌, Option, none, some, Text, codes, hex, pad_left, ℤ, pos, negsuc,
}
use mathlib.Core.Option as Option
use voidwalk.X86.Render.Branches.{Flow}
use voidwalk.Session.Queries.{entry_point}
use voidwalk.Gui.Rows.{GuiSession, row_count, row_vaddr, row_bytes, row_text, row_flow, row_target}
use voidwalk.Gui.Symbols.{function_name}

pub data Column : Type 0 where
  gutter address bytes instruction notes : Column

-- The roles that the source tells apart
pub data Role : Type 0 where
  display edit tool_tip flow_role other : Role

-- A QVariant: nothing, a string, or the flow of a row
pub data Variant : Type 0 where
  nothing : Variant
  shown : Text → Variant
  flow_value : Flow → Variant

-- A model index that is valid
abbrev pub Index : Type 0
Index = ℕ × Column

-- What the view is told. Behind a reset it asks for the number of rows.
pub data Signal : Type 0 where
  rows_inserted : ℕ → ℕ → Signal
  rows_removed : ℕ → ℕ → Signal
  model_reset : ℕ → Signal
  data_changed : Index → Index → Signal
  edits_changed : Signal

pub record DisasmModel : Type 0 where
  pub rows : ℕ
  pub edits : List (ℕ × Text)

abbrev pub Changed : Type 0
Changed = DisasmModel × List Signal

unfoldable pub reset_rows : DisasmModel → Changed
reset_rows m = (record m { rows = 0 }, model_reset 0 ∷ [])

unfoldable pub grow_or_shrink : ℕ → DisasmModel → Changed
grow_or_shrink n m = if n == m.rows then (m, []) else (
  record m { rows = n },
  if ltb m.rows n then rows_inserted m.rows (n - 1) ∷ [] else rows_removed n (m.rows - 1) ∷ [],
)

unfoldable pub sync_to : ℤ → DisasmModel → Changed
unfolding grow_or_shrink
sync_to (pos n) m = grow_or_shrink n m
sync_to (negsuc n) m = grow_or_shrink 0 m

unfoldable pub clear_edits : DisasmModel → Changed
clear_edits m = elim m.edits [
  | [] ↦ (m, [])
  | first ∷ rest ↦ (
    record m { edits = [] },
    if ltb 0 m.rows then data_changed (0, instruction) (m.rows - 1, instruction) ∷ [] else [],
  )
]

-- The NOTES text of a row, by its flow, target, address and the entry point
unfoldable pub note_text : Flow → ℕ → Option ℕ → ℕ → Option Text
unfolding function_name
note_text Flow.call target vaddr entry = some (function_name target entry)
note_text Flow.jump target vaddr entry =
    Option.map (λ v. if ltb target v then codes "backward" else []) vaddr
note_text Flow.cond_jump target vaddr entry =
    Option.map (λ v. if ltb target v then codes "backward" else []) vaddr
note_text Flow.return target vaddr entry = some []
note_text Flow.none target vaddr entry = some []

-- An access that is not defined has no value, as in the session.
unfoldable pub note_for : GuiSession → ℕ → Option Text
unfolding note_text row_target row_flow row_vaddr entry_point
note_for s i = elim (row_target s i) [
  | none ↦ none
  | some target ↦ if target == 0 then some [] else elim (row_flow s i) [
    | none ↦ none
    | some flow ↦ note_text flow target (row_vaddr s i) (entry_point s.core)
  ]
]

-- The first edit of a row
unfoldable pub edit_of : List (ℕ × Text) → ℕ → Option Text
edit_of [] row = none
edit_of ((r, text) ∷ rest) row =
    let later = edit_of rest row in if r == row then some text else later

unfoldable pub cell : GuiSession → DisasmModel → ℕ → Column → Option Variant
unfolding row_vaddr row_bytes row_text note_for edit_of hex pad_left
cell s m row gutter = some nothing
cell s m row address =
    Option.map (λ v. shown (codes "0x" ++ pad_left 8 b'0' (hex v))) (row_vaddr s row)
cell s m row bytes = Option.map shown (row_bytes s row)
cell s m row instruction = elim (edit_of m.edits row) [
  | none ↦ Option.map shown (row_text s row)
  | some text ↦ some (shown text)
]
cell s m row notes = Option.map shown (note_for s row)

unfoldable data_of_role : Role → GuiSession → DisasmModel → Index → Option Variant
unfolding row_flow cell row_count
data_of_role flow_role s m (row, column) = Option.map flow_value (row_flow s row)
data_of_role other s m index = some nothing
data_of_role _ s m (row, column) =
    if leb m.rows row || leb (row_count s) row then some nothing else cell s m row column

unfoldable pub data_at : Option GuiSession → Option Index → Role → DisasmModel → Option Variant
unfolding data_of_role
data_at (some s) (some index) role m = data_of_role role s m index
data_at _ _ role m = some nothing

unfoldable pub header_data : Column → Option Text
header_data gutter = some []
header_data address = some (codes "ADDRESS")
header_data bytes = some (codes "BYTES")
header_data instruction = some (codes "INSTRUCTION")
header_data notes = some (codes "NOTES")

-- The loop over edits_ and the emplace_back behind it
unfoldable pub put_edit : List (ℕ × Text) → ℕ → Text → List (ℕ × Text)
put_edit [] row text = (row, text) ∷ []
put_edit ((r, old) ∷ rest) row text =
    let later = put_edit rest row text in if r == row then (r, text) ∷ rest else (r, old) ∷ later

unfoldable pub set_data : Option Index → Text → Role → DisasmModel → Bool × Changed
unfolding put_edit
set_data (some (row, instruction)) text edit m = (
  true,
  (
    record m { edits = put_edit m.edits row text },
    data_changed (row, instruction) (row, instruction) ∷ edits_changed ∷ [],
  ),
)
set_data _ text role m = (false, (m, []))
