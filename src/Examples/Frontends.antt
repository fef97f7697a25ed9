-- ===== src/Examples/Frontends.antt =====
-- Runs of the theorems on src/analysis_session.cpp, src/gui, src/tui, src/cli and src/main.cpp.
use voidwalk.Common.{
  ℕ, ltb, ◌+◌, ◌*◌, ◌==◌, ◌≤◌, ◌<◌, ◌≡◌, ◌||◌, refl, Bool, true, false, if◌then◌else◌, List, [],
  ◌∷◌, ◌++◌, length, get_elem?, All, none, some, ok, arith, Text, codes, bytes_eq, is_empty,
  repeated,
}
use Prim.{tt}
use voidwalk.AddressSpace.{FileStatus, read_u8}
use voidwalk.ChunkStore.{elements, VectorPolicy, empty_store, push_back, chunk_size}
use voidwalk.ChunkStore.Invariant.{empty_store-IsValid, push_back-IsValid, count-push_back}
use voidwalk.ChunkStore.Contents.{elements-push_back}
use voidwalk.Arch.{x86_64}
use voidwalk.Format.Section.{Header, no_sections}
use voidwalk.Format.Elf.{no_elf_sections}
use voidwalk.Format.Detect.{elf_binary}
use voidwalk.Sweep.{Disassembler}
use voidwalk.Sweep.Filled.{IsFilled}
use voidwalk.X86.Types.{no_simd, empty_info, op, Addressing, Size}
use voidwalk.X86.Decoder.{Instruction}
use voidwalk.X86.Decoder.Bytes.{no_fields}
use voidwalk.X86.Render.{render}
use voidwalk.X86.Registers.{register_of}
use voidwalk.Session.{Session, Opened, new_session, new_object, worker_step, open_binary, join}
use voidwalk.Session.Queries.{throws_file_changed}
use voidwalk.Session.Protocol.{by_open, by_worker, Reached, at_first, later}
use voidwalk.Session.Joined.{AtRest, AtRest-join}
use voidwalk.Session.Refinement.{view, Shows, Reached-Shows}
use voidwalk.Session.Bytes.{bytes_of, read_bytes, Shown, bytes_of-Shown}
use voidwalk.Gui.Layout.{format_disasm_text, format_disasm_text-columns, gap, is_nil, is_blank}
use voidwalk.Gui.Fallback.{DisasmRow, build_fallback, rows_of}
use voidwalk.Gui.Fallback.Bounds.{length-build_fallback}
use voidwalk.Gui.Rows.{GuiSession, Snapshot, SectionInfo, row_at, refresh, row_count, row_vaddr}
use voidwalk.Gui.Rows.Refreshed as Refreshed
use voidwalk.Gui.Rows.Refreshed.{refresh-Shows}
use voidwalk.Gui.Model.{DisasmModel, instruction, display, edit, shown, data_at, set_data}
use voidwalk.Gui.Model.Edits.{data-set_data}
use voidwalk.Gui.Pane.{DisassemblyPane}
use voidwalk.Gui.Strings.{runs, IsRun, runs-IsRun}
use voidwalk.Gui.Symbols.{scan_rows}
use voidwalk.Gui.Symbols.Targets.{has, called, has-scan_rows}
use voidwalk.Tui.Syntax.{tokenize, is_register, lower}
use voidwalk.Tui.Tokens.{Covers, tokenize-Covers}
use voidwalk.Tui.Colours.{register_of-is_register}
use voidwalk.Tui.Search.{row_index_for}
use voidwalk.Tui.Search.Rows.{IsListing, row_index_for-at}
use voidwalk.Cli.HexDump.{output_hex, output_hex-Fits, line_capacity}
use voidwalk.Cli.HexDump.Complete.{Complete, output_hex-Complete}
use voidwalk.Cli.Outputs.{open_outputs, open_outputs-IsHarmless, IsHarmless}
use voidwalk.Examples.Images.{four, four-IsIntact, sample_elf}

abbrev doubling : VectorPolicy
doubling = record { grown = λ n. 2 * n; shrunk = λ n capacity. n; grants = λ table n. ltb n 1000 }

abbrev never : ℕ → Bool
never poll = false

-- src/analysis_session.cpp
abbrev elf_file : FileStatus
elf_file = record {
  opens = true;
  stats = true;
  is_regular = true;
  st_size = sample_elf.file_size;
  maps = true;
  page_byte = sample_elf.mapped_data;
}

abbrev loaded_elf : Session
loaded_elf = (open_binary doubling never elf_file (codes "a.out") new_session).1

AtRest-join_example : AtRest (join doubling never loaded_elf).worker
AtRest-join_example = AtRest-join doubling never loaded_elf

after_step-Reached : Reached doubling (worker_step doubling never loaded_elf)
after_step-Reached =
    later loaded_elf _
      (later new_session loaded_elf at_first (by_open never elf_file (codes "a.out") new_session))
      (by_worker never loaded_elf)

Reached-Shows_example :
    Shows (worker_step doubling never loaded_elf) (view (worker_step doubling never loaded_elf))
Reached-Shows_example =
    Reached-Shows doubling (worker_step doubling never loaded_elf) after_step-Reached

bytes_of-Shown_example : (bs : List ℕ) × (bytes_of four 1 9 ≡ ok bs) × Shown four 1 9 bs
bytes_of-Shown_example = bytes_of-Shown four four-IsIntact 1 9

-- src/gui: a binary with one decoded row, a call
abbrev call_row : Instruction
call_row =
    let f = no_fields true in
    let row = record empty_info { text = "CALL"; operand0 = op Addressing.j Size.z "" } in
    record {
      machine_code = 0xe8 ∷ 0xfb ∷ 0x0f ∷ 0 ∷ 0 ∷ [];
      fields = record f { opcode = 0xe8; info = row; immediates = 0x2000 ∷ [] };
      simd = no_simd;
    }

abbrev one_row : Disassembler
one_row = record new_object {
  instructions = push_back chunk_size doubling none empty_store (some call_row);
  addresses = push_back chunk_size doubling 0 empty_store 0x1000;
  ready_count = 1;
}

one_row-IsFilled : IsFilled one_row
unfolding elements
one_row-IsFilled = record {
  rows = call_row ∷ [];
  elements_are =
      elements-push_back chunk_size doubling none empty_store
        (empty_store-IsValid chunk_size (omega arith)) (some call_row);
  paired = record {
    instructions_valid =
        push_back-IsValid chunk_size none empty_store (empty_store-IsValid chunk_size (omega arith))
          doubling (some call_row);
    addresses_valid =
        push_back-IsValid chunk_size 0 empty_store (empty_store-IsValid chunk_size (omega arith))
          doubling 0x1000;
    same_count = rw (count-push_back, count-push_back) refl;
    published = rw count-push_back refl;
  };
}

abbrev opened : Opened
opened = record {
  contents = four;
  binary = elf_binary (record {
    arch = x86_64;
    entry_address = 0x1000;
    found = record { common = no_sections; extra = no_elf_sections };
  });
  object = one_row;
}

abbrev pane : GuiSession
pane = record {
  core = record new_session { space = some four; disassembler = some opened };
  decoded_for_real = false;
  shown_rows = 0;
  fallback_rows = [];
}

calm : throws_file_changed pane.core ≡ false
unfolding throws_file_changed
calm = refl

refresh-Shows_example :
    (t : GuiSession) × (refresh pane ≡ ok t)
    × (row_count t ≡ one_row.instructions.count)
    × ((i : ℕ)
        → i < row_count t
        → (row : Instruction) × (vaddr : ℕ) × (get_elem? one_row-IsFilled.rows i ≡ some row)
          × Refreshed.Shows t i (render row)
          × (row_vaddr t i ≡ some vaddr))
refresh-Shows_example = refresh-Shows pane opened one_row-IsFilled refl (omega arith) calm

abbrev listed : GuiSession
listed = record pane { decoded_for_real = true; shown_rows = 1 }

abbrev table : DisasmModel
table = record { rows = 1; edits = (0, codes "NOP") ∷ [] }

listed-row_count : 0 < row_count listed
unfolding row_count
listed-row_count = omega arith

data-set_data_example :
    data_at
      (some listed)
      (some (0, instruction))
      display
      (set_data (some (0, instruction)) (codes "RET") edit table).1.0
    ≡ (if 0 == 0
        then some (shown (codes "RET"))
        else data_at (some listed) (some (0, instruction)) display table)
data-set_data_example = data-set_data listed table 0 0 (codes "RET") (omega arith) listed-row_count

abbrev stale : DisassemblyPane
stale = record { banner = none; last_gen = 7; model = record { rows = 3; edits = [] } }

abbrev nine_bytes : Header
nine_bytes = record { vaddr = 0x1000; offset = 1; size = 9 }

abbrev raw_rows : List DisasmRow
raw_rows = rows_of 3 0x1000 0 (2 ∷ 3 ∷ 4 ∷ [])

raw_four : build_fallback four (nine_bytes ∷ []) ≡ ok raw_rows
unfolding build_fallback read_bytes read_u8
raw_four = refl

length-build_fallback_example : length raw_rows ≤ 512 + length (nine_bytes ∷ [])
length-build_fallback_example = length-build_fallback four (nine_bytes ∷ []) raw_rows raw_four

format_disasm_text-columns_example :
    format_disasm_text (codes "SUB" ++ codes " \t" ++ codes "RSP, 0x28")
    ≡ codes "SUB"
      ++ (if is_nil (codes "RSP, 0x28")
          then []
          else repeated (gap (codes "SUB")) 32 ++ codes "RSP, 0x28")
unfolding is_blank
format_disasm_text-columns_example =
    format_disasm_text-columns (codes "SUB") (codes "RSP, 0x28") (refl, (refl, (refl, tt))) refl
      refl refl refl

runs-IsRun_example :
    All
      (IsRun (0 ∷ 0x66 ∷ 0x6f ∷ 0x6f ∷ 0x21 ∷ 0 ∷ []))
      (runs (0 ∷ 0x66 ∷ 0x6f ∷ 0x6f ∷ 0x21 ∷ 0 ∷ []))
runs-IsRun_example = runs-IsRun (0 ∷ 0x66 ∷ 0x6f ∷ 0x6f ∷ 0x21 ∷ 0 ∷ [])

abbrev one_call : Snapshot
one_call = record { space = some four; disassembler = some opened; rows = 1 }

scanned : scan_rows never one_call 1 0 [] ≡ some (some (0x2000 ∷ []))
unfolding scan_rows row_at render push_back is_empty bytes_eq
scanned = refl

has-scan_rows_example : has 0x2000 (0x2000 ∷ []) ≡ (has 0x2000 [] || called one_call 1 0 0x2000)
has-scan_rows_example = has-scan_rows never one_call 1 0 [] (0x2000 ∷ []) 0x2000 scanned

-- src/tui
tokenize-Covers_example :
    Covers (codes "rep movsb ; copy") (tokenize (codes "rep movsb ; copy") false)
tokenize-Covers_example = tokenize-Covers (codes "rep movsb ; copy") false

register_of-is_register_example : is_register (lower (codes (register_of 3 8 false))) ≡ true
register_of-is_register_example =
    register_of-is_register 3 8 false (omega arith) (λ _ _. omega arith)

abbrev text_section : SectionInfo
text_section = record { name = ".text"; offset = 0; vaddr = 0x1000; size = 16 }

abbrev row_address : ℕ → ℕ
row_address i = 0x1000 + i * 4

three_rows-IsListing : IsListing row_address 3 text_section
unfolding bytes_eq
three_rows-IsListing = record {
  is_text = refl;
  rising = λ i j h k. omega arith;
  inside = λ i h. (omega arith, omega arith);
}

row_index_for-at_example : row_index_for row_address 3 (text_section ∷ []) (row_address 2) ≡ 2
row_index_for-at_example =
    row_index_for-at row_address 3 text_section three_rows-IsListing 2 (omega arith)

-- src/cli
output_hex-Fits_example : All (λ line. length line ≤ line_capacity) (output_hex four).0
output_hex-Fits_example = output_hex-Fits four

output_hex-Complete_example : Complete four.file_size (output_hex four)
output_hex-Complete_example = output_hex-Complete four four-IsIntact

abbrev same_file : Text → Bool
same_file path = bytes_eq path (codes "a.out")

abbrev creates : Text → Bool
creates path = true

open_outputs-IsHarmless_example :
    All
      (IsHarmless same_file creates)
      (open_outputs same_file creates (codes "a.out" ∷ codes "list.txt" ∷ []))
open_outputs-IsHarmless_example =
    open_outputs-IsHarmless same_file creates (codes "a.out" ∷ codes "list.txt" ∷ [])
