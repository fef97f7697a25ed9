-- ===== src/Gui/Rows.antt =====
-- The rows of the disassembly pane: Session and Snapshot of src/gui/session.hpp and
-- src/gui/session.cpp.
pub mod Refreshed
use voidwalk.Common.{
  ℕ, zero, suc, ◌+◌, ◌==◌, ltb, leb, if◌then◌else◌, Bool, true, false, not, ◌&&◌, ◌||◌, String,
  List, [], ◌∷◌, ◌++◌, length, get_elem?, Option, none, some, Error, file_changed, Result, ok, err,
  ◌>>=◌, Text, codes, decimal,
}
use mathlib.Core.Option as Option
use voidwalk.AddressSpace.{AddressSpace}
use voidwalk.ChunkStore.{ChunkStore, chunk_size, index}
use voidwalk.Format.Section.{Header, Sections}
use voidwalk.Format.Detect.{Binary, binary_sections, binary_entry}
use voidwalk.Sweep.{Disassembler}
use voidwalk.X86.Decoder.{Instruction}
use voidwalk.X86.Render.{Row, render}
use voidwalk.X86.Render.Branches.{Flow}
use voidwalk.Session as Core
use voidwalk.Session.{Opened, DecodeState, is_decoding}
use voidwalk.Session.Queries.{throws_file_changed}
use voidwalk.Session.Bytes.{bytes_of}
use voidwalk.Gui.Layout.{format_disasm_text}
use voidwalk.Gui.Fallback.{DisasmRow, build_fallback}

-- The fields of gui::Session, over those of the session that it extends.
pub record GuiSession : Type 0 where
  pub core : Core.Session
  pub decoded_for_real : Bool
  pub shown_rows : ℕ
  pub fallback_rows : List DisasmRow

unfoldable pub on_decode_started : GuiSession → GuiSession
on_decode_started s = record s { shown_rows = 0; fallback_rows = []; decoded_for_real = false }

unfoldable pub unloaded_view : GuiSession → GuiSession
unloaded_view s = record s { decoded_for_real = false; shown_rows = 0; fallback_rows = [] }

-- refresh, for a binary that is loaded
unfoldable pub refresh_opened : Opened → GuiSession → Result GuiSession
unfolding build_fallback is_decoding binary_sections
refresh_opened o s =
    let ready = o.object.ready_count in
    if ltb 0 ready
    then ok (record s { decoded_for_real = true; shown_rows = ready })
    else if is_decoding s.core
    then ok s
    else (do
      rows ← build_fallback o.contents (binary_sections o.binary).text
      ok (record s { decoded_for_real = false; fallback_rows = rows }))

unfoldable pub refresh_from : Option Opened → GuiSession → Result GuiSession
unfolding refresh_opened unloaded_view
refresh_from none s = ok (unloaded_view s)
refresh_from (some o) s = refresh_opened o s

unfoldable pub refresh : GuiSession → Result GuiSession
unfolding throws_file_changed refresh_from
refresh s =
    let shown = refresh_from s.core.disassembler s in
    if throws_file_changed s.core then err file_changed else shown

unfoldable pub row_count : GuiSession → ℕ
row_count s = elim s.core.disassembler [
  | none ↦ 0
  | some o ↦ if s.decoded_for_real then s.shown_rows else length s.fallback_rows
]

-- `*getDecodedInstructions()[i]`, rendered; no value outside the blocks and for a null pointer
abbrev pub rendered : Option (Option Instruction) → Option Row
rendered (some (some instruction)) = some (render instruction)
rendered _ = none

unfoldable pub row_at : Opened → ℕ → Option Row
unfolding index
row_at o i = rendered (index chunk_size o.object.instructions i)

-- A row of what the pane shows: what a decoded row, a raw row and no row give. An access that is not
-- defined has no value.
unfoldable pub read_row :
    {A : Type 0} → A → (DisasmRow → A) → (Opened → ℕ → Option A) → GuiSession → ℕ → Option A
read_row empty raw real s i = elim s.core.disassembler [
  | none ↦ some empty
  | some o ↦
      if s.decoded_for_real
      then (if leb s.shown_rows i then some empty else real o i)
      else elim (get_elem? s.fallback_rows i) [ none ↦ some empty | some row ↦ some (raw row) ]
]

unfoldable pub row_vaddr : GuiSession → ℕ → Option ℕ
unfolding read_row index
row_vaddr s i = read_row 0 (λ row. row.vaddr) (λ o j. index chunk_size o.object.addresses j) s i

unfoldable pub of_row : {A : Type 0} → (Row → A) → Opened → ℕ → Option A
unfolding row_at
of_row f o i = Option.map f (row_at o i)

-- `while (!b.empty() && b.back() == ' ') b.pop_back()`
unfoldable pub pop_spaces : Text → Text
pop_spaces [] = []
pop_spaces (c ∷ text) =
    let rest = pop_spaces text in
    elim rest [ [] ↦ if c == 32 then [] else c ∷ [] | d ∷ more ↦ c ∷ d ∷ more ]

unfoldable pub row_bytes : GuiSession → ℕ → Option Text
unfolding read_row of_row pop_spaces
row_bytes s i = read_row [] (λ row. row.bytes) (of_row (λ row. pop_spaces row.machine_code)) s i

unfoldable pub row_text : GuiSession → ℕ → Option Text
unfolding read_row of_row format_disasm_text
row_text s i =
    read_row [] (λ row. row.text) (of_row (λ row. format_disasm_text row.instruction_text)) s i

unfoldable pub row_flow : GuiSession → ℕ → Option Flow
unfolding read_row of_row
row_flow s i = read_row Flow.none (λ row. Flow.none) (of_row (λ row. row.flow)) s i

unfoldable pub row_target : GuiSession → ℕ → Option ℕ
unfolding read_row of_row
row_target s i = read_row 0 (λ row. 0) (of_row (λ row. row.target)) s i

-- SectionInfo, and the lambda add of sectionsOf
pub record SectionInfo : Type 0 where
  pub name : String
  pub offset : ℕ
  pub vaddr : ℕ
  pub size : ℕ

unfoldable pub listed_sections : String → List Header → List SectionInfo
listed_sections name [] = []
listed_sections name (h ∷ list) =
    let rest = listed_sections name list in
    if (h.offset == 0) && (h.size == 0)
    then rest
    else record { name = name; offset = h.offset; vaddr = h.vaddr; size = h.size } ∷ rest

unfoldable pub sections_of : Sections → List SectionInfo
unfolding listed_sections
sections_of s =
    listed_sections ".text" s.text
    ++ listed_sections ".data" s.data_sections
    ++ listed_sections ".rodata" s.read_only
    ++ listed_sections ".bss" s.bss

unfoldable pub sections : GuiSession → List SectionInfo
unfolding sections_of binary_sections
sections s = elim s.core.disassembler [
  | none ↦ []
  | some o ↦ sections_of (binary_sections o.binary)
]

unfoldable pub apply_patches : GuiSession → List (ℕ × Text) → Text
unfolding decimal
apply_patches s edits = elim s.core.disassembler [
  | none ↦ codes "Recompile: no binary loaded."
  | some o ↦ elim edits [
    | [] ↦ codes "Recompile: no edited instructions - nothing to do."
    | edit ∷ rest ↦
        codes "Recompile: assembler backend not implemented yet - "
        ++ decimal (length (edit ∷ rest))
        ++ codes " edit(s) left pending."
  ]
]

-- Snapshot. The object behind the pointer may have got more rows since.
pub record Snapshot : Type 0 where
  pub space : Option AddressSpace
  pub disassembler : Option Opened
  pub rows : ℕ

unfoldable pub snapshot : GuiSession → Snapshot
snapshot s = elim s.core.disassembler [
  | none ↦ record { space = none; disassembler = none; rows = 0 }
  | some o ↦ record {
    space = s.core.space;
    disassembler = some o;
    rows = if s.decoded_for_real then s.shown_rows else 0;
  }
]

-- The guard that every accessor of a Snapshot has
unfoldable pub snapshot_row : {A : Type 0} → A → (Opened → ℕ → Option A) → Snapshot → ℕ → Option A
snapshot_row empty real s i = elim s.disassembler [
  | none ↦ some empty
  | some o ↦ if leb s.rows i then some empty else real o i
]

unfoldable pub snapshot_vaddr : Snapshot → ℕ → Option ℕ
unfolding snapshot_row index
snapshot_vaddr s i = snapshot_row 0 (λ o j. index chunk_size o.object.addresses j) s i

unfoldable pub snapshot_text : Snapshot → ℕ → Option Text
unfolding snapshot_row of_row format_disasm_text
snapshot_text s i = snapshot_row [] (of_row (λ row. format_disasm_text row.instruction_text)) s i

unfoldable pub snapshot_flow : Snapshot → ℕ → Option Flow
unfolding snapshot_row of_row
snapshot_flow s i = snapshot_row Flow.none (of_row (λ row. row.flow)) s i

unfoldable pub snapshot_target : Snapshot → ℕ → Option ℕ
unfolding snapshot_row of_row
snapshot_target s i = snapshot_row 0 (of_row (λ row. row.target)) s i

unfoldable pub snapshot_entry_point : Snapshot → ℕ
unfolding binary_entry
snapshot_entry_point s = elim s.disassembler [ none ↦ 0 | some o ↦ binary_entry o.binary ]

unfoldable pub snapshot_sections : Snapshot → List SectionInfo
unfolding sections_of binary_sections
snapshot_sections s = elim s.disassembler [
  | none ↦ []
  | some o ↦ sections_of (binary_sections o.binary)
]

unfoldable pub snapshot_bytes : Snapshot → ℕ → ℕ → Result (List ℕ)
unfolding bytes_of
snapshot_bytes s offset count = elim s.space [
  | none ↦ ok []
  | some space ↦ bytes_of space offset count
]
