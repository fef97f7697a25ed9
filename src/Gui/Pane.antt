-- ===== src/Gui/Pane.antt =====
-- DisassemblyPane::refresh of src/gui/panes/disassembly_pane.cpp: the poll that keeps the table up with
-- the session.
pub mod Mirror
use voidwalk.Common.{
  ℕ, suc, ◌-◌, ◌%◌, ◌^◌, ◌==◌, ltb, if◌then◌else◌, Bool, true, false, not, ◌&&◌, ◌||◌, String,
  is_empty, List, [], ◌++◌, Option, none, some, Text, codes, ℤ, pos, negsuc,
}
use voidwalk.Session.{loaded, is_decoding}
use voidwalk.Session.Queries.{decode_note, architecture}
use voidwalk.Gui.Rows.{GuiSession, row_count}
use voidwalk.Gui.Model.{DisasmModel, Signal, Changed, reset_rows, sync_to}

-- The members that change: the banner's text, if it is visible, lastGen_ and the model
pub record DisassemblyPane : Type 0 where
  pub banner : Option Text
  pub last_gen : ℕ
  pub model : DisasmModel

-- `static_cast<int>` of a size_t
unfoldable pub to_int : ℕ → ℤ
to_int n = let low = n % 2 ^ 32 in if ltb low (2 ^ 31) then pos low else negsuc (2 ^ 32 - 1 - low)

unfoldable pub banner_text : GuiSession → Text
unfolding decode_note architecture is_empty
banner_text s =
    if not (is_empty (decode_note s.core))
    then codes (decode_note s.core)
    else codes "The decoder for "
      ++ codes (architecture s.core)
      ++ codes " is a stub - showing raw .text bytes instead of real instructions."

-- "A new binary since the last poll"
unfoldable pub drop_old_rows : ℕ → DisassemblyPane → Changed
unfolding reset_rows
drop_old_rows generation p = if generation == p.last_gen then (p.model, []) else reset_rows p.model

unfoldable refresh_loaded : GuiSession → DisassemblyPane → DisassemblyPane × List Signal
unfolding banner_text drop_old_rows sync_to to_int row_count is_decoding
refresh_loaded s p =
    let (dropped, first) = drop_old_rows s.core.decode_generation p in
    let (model, later) = sync_to (to_int (row_count s)) dropped in
    (
      record {
        banner =
            if not s.decoded_for_real && not (is_decoding s.core)
            then some (banner_text s)
            else none;
        last_gen = s.core.decode_generation;
        model = model;
      },
      first ++ later,
    )

unfoldable refresh_unloaded : ℕ → DisassemblyPane → DisassemblyPane × List Signal
unfolding reset_rows
refresh_unloaded generation p =
    let (model, signals) = reset_rows p.model in
    (record { banner = none; last_gen = generation; model = model }, signals)

unfoldable pub refresh_pane : Option GuiSession → DisassemblyPane → DisassemblyPane × List Signal
unfolding refresh_loaded refresh_unloaded loaded
refresh_pane none p = refresh_unloaded 0 p
refresh_pane (some s) p =
    if loaded s.core then refresh_loaded s p else refresh_unloaded s.core.decode_generation p
