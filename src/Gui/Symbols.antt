-- ===== src/Gui/Symbols.antt =====
-- The symbol list: src/gui/symbols.hpp and src/gui/symbols.cpp.
pub mod Targets
use voidwalk.Common.{
  ℕ, zero, suc, ◌+◌, ◌-◌, ◌/◌, ◌%◌, ◌==◌, ltb, leb, if◌then◌else◌, Bool, true, false, not, ◌&&◌,
  ◌||◌, String, List, [], ◌∷◌, ◌++◌, map, length, Option, none, some, Result, ok, err, ◌>>=◌, Text,
  codes, bytes_eq, upper_hex, pad_left, add64,
}
use mathlib.Core.Option as Option
use voidwalk.X86.Render.Branches.{Flow}
use voidwalk.Gui.Rows.{
  SectionInfo, Snapshot, snapshot_flow, snapshot_target, snapshot_entry_point, snapshot_sections,
  snapshot_bytes,
}
use voidwalk.Gui.Strings.{Run, runs}

pub data Kind : Type 0 where
  function import string : Kind

pub record SymbolInfo : Type 0 where
  pub kind : Kind
  pub name : Text
  pub addr : ℕ
  pub detail : Text

unfoldable pub hex_addr : ℕ → ℕ → Text
unfolding pad_left upper_hex
hex_addr v width = pad_left width b'0' (upper_hex v)

unfoldable pub function_name : ℕ → ℕ → Text
unfolding hex_addr
function_name addr entry = if addr == entry then codes "entry" else codes "sub_" ++ hex_addr addr 6

-- `insert` of a std::set: in ascending order, and nothing twice
unfoldable pub insert : ℕ → List ℕ → List ℕ
insert x [] = x ∷ []
insert x (y ∷ ys) =
    let rest = insert x ys in if x == y then y ∷ ys else if ltb x y then x ∷ y ∷ ys else y ∷ rest

unfoldable pub is_call : Flow → Bool
is_call Flow.call = true
is_call _ = false

-- The targets with the row's, if it is a direct call
unfoldable pub add_row : Flow → ℕ → List ℕ → List ℕ
unfolding insert is_call
add_row flow target targets =
    if is_call flow && not (target == 0) then insert target targets else targets

-- kMaxStringDisplay, and what stands for the rest: three bytes of UTF-8
abbrev pub max_string_display : ℕ
max_string_display = 28

unfoldable pub take : ℕ → Text → Text
take zero text = []
take (suc n) [] = []
take (suc n) (c ∷ text) = c ∷ take n text

unfoldable pub shown_string : Text → Text → Text
unfolding take
shown_string ellipsis run =
    if ltb max_string_display (length run) then take max_string_display run ++ ellipsis else run

abbrev pub utf8_ellipsis : Text
utf8_ellipsis = 0xe2 ∷ 0x80 ∷ 0xa6 ∷ []

unfoldable pub string_symbol : Text → SectionInfo → Run → SymbolInfo
unfolding shown_string hex_addr
string_symbol ellipsis sec (start, run) = record {
  kind = string;
  name = codes "\"" ++ shown_string ellipsis run ++ codes "\"";
  addr = add64 sec.offset start;
  detail = hex_addr (add64 sec.vaddr start) 8;
}

-- kMaxScan
abbrev pub max_scan : ℕ
max_scan = 262144

unfoldable pub scan_size : SectionInfo → ℕ
scan_size sec = if ltb max_scan sec.size then max_scan else sec.size

unfoldable pub collect_strings : Snapshot → SectionInfo → Result (List SymbolInfo)
unfolding scan_size snapshot_bytes runs string_symbol
collect_strings snapshot sec = if sec.size == 0 then ok [] else (do
  raw ← snapshot_bytes snapshot sec.offset (scan_size sec)
  ok (map (string_symbol utf8_ellipsis sec) (runs raw)))

unfoldable pub is_data_section : SectionInfo → Bool
unfolding bytes_eq
is_data_section sec =
    bytes_eq (codes sec.name) (codes ".rodata") || bytes_eq (codes sec.name) (codes ".data")

-- The loop over the sections; the stop token is asked once for each.
unfoldable pub collect_sections :
    (ℕ → Bool) → Snapshot → List SectionInfo → Result (Option (List SymbolInfo))
unfolding collect_strings is_data_section
collect_sections stop snapshot [] = ok (some [])
collect_sections stop snapshot (sec ∷ rest) =
    let later = collect_sections (λ n. stop (suc n)) snapshot rest in
    let here = if is_data_section sec then collect_strings snapshot sec else ok [] in
    if stop 0
    then ok none
    else (do symbols ← here; others ← later; ok (Option.map (λ o. symbols ++ o) others))

-- The targets after a row, unless an access to it is not defined
unfoldable pub next_targets : Option Flow → Option ℕ → List ℕ → Option (List ℕ)
unfolding add_row
next_targets (some flow) (some target) targets = some (add_row flow target targets)
next_targets _ _ targets = none

unfoldable pub continued :
    Option (List ℕ) → (List ℕ → Option (Option (List ℕ))) → Option (Option (List ℕ))
continued none rest = none
continued (some targets) rest = rest targets

-- The loop over the rows from row `i` on, which asks the stop token every 4096 rows. No value is an
-- access outside the rows; an empty answer is a stop.
unfoldable pub scan_rows : (ℕ → Bool) → Snapshot → ℕ → ℕ → List ℕ → Option (Option (List ℕ))
unfolding snapshot_flow snapshot_target next_targets continued
scan_rows stop snapshot zero i targets = some (some targets)
scan_rows stop snapshot (suc left) i targets =
    if (i % 4096 == 0) && stop (i / 4096)
    then some none
    else continued (next_targets (snapshot_flow snapshot i) (snapshot_target snapshot i) targets)
        (scan_rows stop snapshot left (suc i))

unfoldable pub function_symbol : ℕ → ℕ → SymbolInfo
unfolding function_name hex_addr
function_symbol entry addr = record {
  kind = function;
  name = function_name addr entry;
  addr = addr;
  detail = hex_addr addr 6;
}

-- collectSymbols, behind its loop over the rows. `asked` is how often the token was asked there.
unfoldable pub finish_symbols : (ℕ → Bool) → ℕ → Snapshot → List ℕ → Result (List SymbolInfo)
unfolding collect_sections function_symbol snapshot_entry_point snapshot_sections
finish_symbols stop asked snapshot targets = do
  strings ← collect_sections (λ n. stop (asked + n)) snapshot (snapshot_sections snapshot)
  ok (elim strings [
    | none ↦ []
    | some list ↦ map (function_symbol (snapshot_entry_point snapshot)) targets ++ list
  ])

unfoldable pub collect_symbols : (ℕ → Bool) → Snapshot → Option (Result (List SymbolInfo))
unfolding scan_rows finish_symbols snapshot_entry_point insert
collect_symbols stop snapshot =
    let entry = snapshot_entry_point snapshot in
    let first = if entry == 0 then [] else insert entry [] in
    elim snapshot.disassembler [
      | none ↦ some (ok [])
      | some o ↦ elim (scan_rows stop snapshot snapshot.rows 0 first) [
        | none ↦ none
        | some answer ↦ elim answer [
          | none ↦ some (ok [])
          | some targets ↦
              some (finish_symbols stop ((snapshot.rows + 4095) / 4096) snapshot targets)
        ]
      ]
    ]
