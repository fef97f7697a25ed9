-- ===== src/Tui/Rows.antt =====
-- The rows, the banner, the notes and the symbols of the terminal frontend: src/tui/session.cpp. Its
-- row accessors are those of src/gui/session.cpp, statement by statement.
use voidwalk.Common.{
  ℕ, zero, suc, ◌==◌, ltb, if◌then◌else◌, Bool, true, false, not, ◌&&◌, ◌||◌, String, is_empty,
  List, [], ◌∷◌, ◌++◌, map, Option, none, some, file_changed, Result, ok, err, ◌>>=◌, Text, codes,
  upper_hex, pad_left,
}
use mathlib.Core.Option as Option
use voidwalk.Format.Detect.{binary_sections, FileType, elf, pe, neither}
use voidwalk.X86.Render.Branches.{Flow}
use voidwalk.Session.{Opened, is_decoding}
use voidwalk.Session.Queries.{decode_note, throws_file_changed, architecture, entry_point}
use voidwalk.Session.Bytes.{bytes}
use voidwalk.Gui.Rows.{
  GuiSession, SectionInfo, row_count, row_vaddr, row_flow, row_target, sections,
}
use voidwalk.Gui.Fallback.{build_fallback}
use voidwalk.Gui.Strings.{runs}
use voidwalk.Gui.Symbols.{
  SymbolInfo, insert, next_targets, continued, string_symbol, scan_size, is_data_section,
}
use voidwalk.Gui.Symbols as Gui
use voidwalk.Tui.Search.{row_index_for}

unfoldable pub hex_up : ℕ → ℕ → Text
unfolding pad_left upper_hex
hex_up v width = pad_left width b'0' (upper_hex v)

-- The constructor's name of the format
unfoldable pub format_of : FileType → String
format_of elf = "ELF"
format_of pe = "PE"
format_of neither = "?"

-- The fields of tui::Session; `rows` are those that gui::Session has as well: real_, shown_ and
-- fallback_, over the core session. A symbolsGen_ of ~0 is `none`.
pub record TuiSession : Type 0 where
  pub rows : GuiSession
  pub banner : Text
  pub symbols : List SymbolInfo
  pub symbols_gen : Option ℕ

unfoldable pub no_rows : GuiSession → GuiSession
no_rows s = record s { decoded_for_real = false; shown_rows = 0; fallback_rows = [] }

unfoldable pub on_decode_started : TuiSession → TuiSession
unfolding no_rows
on_decode_started s = record s { rows = no_rows s.rows; banner = []; symbols = [] }

unfoldable pub function_name : ℕ → ℕ → Text
unfolding hex_up
function_name addr entry = if addr == entry then codes "entry" else codes "sub_" ++ hex_up addr 6

unfoldable pub stub_banner : GuiSession → Text
unfolding architecture
stub_banner s =
    codes "The decoder for "
    ++ codes (architecture s.core)
    ++ codes " is a stub - showing raw .text bytes instead of real instructions."

-- The rows and the banner of refresh; `done` and `note` are its local variables.
unfoldable pub refresh_rows : Opened → Bool → String → TuiSession → Result TuiSession
unfolding build_fallback binary_sections is_empty stub_banner
refresh_rows o done note s =
    let ready = o.object.ready_count in
    if ltb 0 ready
    then ok (record s {
      rows = record (s.rows) { decoded_for_real = true; shown_rows = ready };
      banner = if is_empty note then [] else codes "Decode stopped: " ++ codes note;
    })
    else if not done
    then ok (record s { banner = codes "Decoding..." })
    else (do
      raw ← build_fallback o.contents (binary_sections o.binary).text
      ok (record s {
        rows = record (s.rows) { decoded_for_real = false; fallback_rows = raw };
        banner = if is_empty note then stub_banner s.rows else codes note;
      }))

-- The calls of the rows from row `i` on; no value is an access outside the rows.
unfoldable pub call_targets : GuiSession → ℕ → ℕ → List ℕ → Option (List ℕ)
unfolding row_flow row_target next_targets
call_targets s zero i targets = some targets
call_targets s (suc left) i targets = elim (next_targets (row_flow s i) (row_target s i) targets) [
  | none ↦ none
  | some next ↦ call_targets s left (suc i) next
]

unfoldable pub function_symbol : ℕ → ℕ → SymbolInfo
unfolding function_name hex_up
function_symbol entry addr = record {
  kind = Gui.function;
  name = function_name addr entry;
  addr = addr;
  detail = hex_up addr 6;
}

unfoldable pub section_strings : GuiSession → List SectionInfo → Result (List SymbolInfo)
unfolding is_data_section bytes scan_size runs string_symbol
section_strings s [] = ok []
section_strings s (sec ∷ rest) =
    let later = section_strings s rest in
    if not (is_data_section sec) || (sec.size == 0) then later else (do
      raw ← bytes s.core sec.offset (scan_size sec)
      others ← later
      ok (map (string_symbol (codes "...") sec) (runs raw) ++ others))

-- collectSymbols, for the rows that are shown
unfoldable pub collect_symbols : GuiSession → Option (Result (List SymbolInfo))
unfolding entry_point call_targets function_symbol sections section_strings insert
collect_symbols s =
    let entry = entry_point s.core in
    let first = if entry == 0 then [] else insert entry [] in
    if not s.decoded_for_real
    then some (ok [])
    else Option.map
        (λ targets. do
          strings ← section_strings s (sections s)
          ok (map (function_symbol entry) targets ++ strings))
        (call_targets s s.shown_rows 0 first)

unfoldable pub is_collected : TuiSession → Bool
is_collected s = elim s.symbols_gen [
  | none ↦ false
  | some gen ↦ gen == s.rows.core.decode_generation
]

-- The end of refresh
unfoldable pub refresh_symbols : Bool → TuiSession → Option (Result TuiSession)
unfolding is_collected collect_symbols
refresh_symbols done s =
    let collected =
      Option.map
        (λ r. do
          list ← r
          ok (record s { symbols = list; symbols_gen = some (s.rows.core.decode_generation) }))
        (collect_symbols s.rows) in
    if done && not (is_collected s) then collected else some (ok s)

unfoldable pub refresh_from : Option Opened → TuiSession → Option (Result TuiSession)
unfolding no_rows is_decoding decode_note refresh_rows refresh_symbols
refresh_from none s = some (ok (record s { rows = no_rows s.rows; symbols = [] }))
refresh_from (some o) s =
    let done = not (is_decoding s.rows.core) in
    let note = if done then decode_note s.rows.core else "" in
    elim (refresh_rows o done note s) [
      | err e ↦ some (err e)
      | ok shown ↦ refresh_symbols done shown
    ]

unfoldable pub refresh : TuiSession → Option (Result TuiSession)
unfolding throws_file_changed refresh_from
refresh s =
    let refreshed = refresh_from s.rows.core.disassembler (record s { banner = [] }) in
    if throws_file_changed s.rows.core then some (err file_changed) else refreshed

-- The NOTES column, from the target, the flow and the address of the row
unfoldable pub note_of : Flow → ℕ → ℕ → ℕ → Text
unfolding function_name
note_of Flow.call target vaddr entry = if target == 0 then [] else function_name target entry
note_of Flow.jump target vaddr entry =
    if target == 0 then [] else if ltb target vaddr then codes "backward" else []
note_of Flow.cond_jump target vaddr entry =
    if target == 0 then [] else if ltb target vaddr then codes "backward" else []
note_of _ target vaddr entry = []

unfoldable pub row_note : TuiSession → ℕ → Option Text
unfolding note_of row_flow row_target row_vaddr entry_point
row_note s i = elim (row_flow s.rows i) [
  | none ↦ none
  | some flow ↦ elim (row_target s.rows i) [
    | none ↦ none
    | some target ↦
        Option.map (λ vaddr. note_of flow target vaddr (entry_point s.rows.core))
          (row_vaddr s.rows i)
  ]
]

-- The address of a row, 0 where it has none
unfoldable pub vaddr_or_zero : TuiSession → ℕ → ℕ
unfolding row_vaddr
vaddr_or_zero s i = elim (row_vaddr s.rows i) [ none ↦ 0 | some vaddr ↦ vaddr ]

unfoldable pub row_index : TuiSession → ℕ → ℕ
unfolding row_index_for vaddr_or_zero row_count sections
row_index s vaddr = row_index_for (vaddr_or_zero s) (row_count s.rows) (sections s.rows) vaddr
