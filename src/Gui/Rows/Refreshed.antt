-- ===== src/Gui/Rows/Refreshed.antt =====
-- What the pane shows after Session::refresh of src/gui/session.cpp.
use voidwalk.Common.{
  ℕ, ◌<◌, ◌≡◌, refl, sym, ap, ◌∙◌, leb, true, false, [], get_elem?, Option, some, ok, arith, lt→ltb,
}
use mathlib.Core.Path.{subst}
use voidwalk.ChunkStore.{chunk_size, index}
use voidwalk.ChunkStore.Contents.{index-some}
use voidwalk.Sweep.Filled.{IsFilled, index-IsFilled}
use voidwalk.X86.Decoder.{Instruction}
use voidwalk.X86.Render.{Row, render}
use voidwalk.X86.Render.Branches.{Flow}
use mathlib.Core.Option as Option
use voidwalk.Session.{Opened}
use voidwalk.Session.Queries.{throws_file_changed}
use voidwalk.Gui.Layout.{format_disasm_text}
use voidwalk.Gui.Fallback.{DisasmRow}
use voidwalk.Gui.Rows.{
  GuiSession, refresh, refresh_from, rendered, refresh_opened, row_count, row_at, read_row, of_row,
  row_vaddr, row_bytes, row_text, row_flow, row_target, pop_spaces,
}

-- The row of the pane is the decoded instruction at the position.
pub record Shows (t : GuiSession) (i : ℕ) (row : Row) : Type 0 where
  pub text : row_text t i ≡ some (format_disasm_text row.instruction_text)
  pub machine_code : row_bytes t i ≡ some (pop_spaces row.machine_code)
  pub flow : row_flow t i ≡ some row.flow
  pub target : row_target t i ≡ some row.target

pub lt→leb : (a b : ℕ) → a < b → leb b a ≡ false
lt→leb a b h = ground arith

abbrev ready_view : Opened → GuiSession → GuiSession
ready_view o s = record s { decoded_for_real = true; shown_rows = o.object.ready_count }

refresh_opened-ready :
    (s : GuiSession) (o : Opened)
    → 0 < o.object.ready_count
    → refresh_opened o s ≡ ok (ready_view o s)
unfolding refresh_opened
refresh_opened-ready s o ready = rw (lt→ltb 0 o.object.ready_count ready) refl

refresh-ready :
    (s : GuiSession) (o : Opened)
    → s.core.disassembler ≡ some o
    → 0 < o.object.ready_count
    → throws_file_changed s.core ≡ false
    → refresh s ≡ ok (ready_view o s)
unfolding refresh refresh_from
refresh-ready s o loaded ready calm =
    rw calm (ap (λ d. refresh_from d s) loaded ∙ refresh_opened-ready s o ready)

row_at-some :
    (o : Opened) (i : ℕ) (row : Instruction)
    → index chunk_size o.object.instructions i ≡ some (some row)
    → row_at o i ≡ some (render row)
unfolding row_at
row_at-some o i row e = ap rendered e

read_row-real :
    {A : Type 0} (empty : A) (raw : DisasmRow → A) (real : Opened → ℕ → Option A) (s : GuiSession)
    (o : Opened) (i : ℕ)
    → s.core.disassembler ≡ some o
    → i < o.object.ready_count
    → read_row empty raw real (ready_view o s) i ≡ real o i
unfolding read_row
read_row-real empty raw real s o i loaded h = rw loaded (rw (lt→leb i o.object.ready_count h) refl)

read_row-some :
    {A : Type 0} (empty : A) (raw : DisasmRow → A) (f : Row → A) (s : GuiSession) (o : Opened)
    (i : ℕ) (row : Instruction)
    → s.core.disassembler ≡ some o
    → i < o.object.ready_count
    → index chunk_size o.object.instructions i ≡ some (some row)
    → read_row empty raw (of_row f) (ready_view o s) i ≡ some (f (render row))
unfolding of_row
read_row-some empty raw f s o i row loaded within slot =
    read_row-real empty raw (of_row f) s o i loaded within
    ∙ ap (Option.map f) (row_at-some o i row slot)

-- Once a row of a loaded binary is published and the sweep has not met a changed file, refresh shows
-- the published rows, as many as there are instructions. Row i of them is the i-th instruction of the
-- sweep, in its text, bytes, flow and target, and has an address: no access leaves the stores.
pub refresh-Shows :
    (s : GuiSession) (o : Opened) (f : IsFilled o.object)
    → s.core.disassembler ≡ some o
    → 0 < o.object.ready_count
    → throws_file_changed s.core ≡ false
    → (t : GuiSession) × (refresh s ≡ ok t)
      × (row_count t ≡ o.object.instructions.count)
      × ((i : ℕ)
          → i < row_count t
          → (row : Instruction) × (vaddr : ℕ) × (get_elem? f.rows i ≡ some row)
            × Shows t i (render row)
            × (row_vaddr t i ≡ some vaddr))
unfolding row_count row_vaddr row_text row_bytes row_flow row_target
refresh-Shows s o f loaded ready calm = (
  ready_view o s,
  refresh-ready s o loaded ready calm,
  rw loaded f.paired.published,
  λ i below.
      let within : i < o.object.ready_count = subst (λ n. i < n) (rw loaded refl) below in
      let counted_in : i < o.object.instructions.count =
        subst (λ n. i < n) f.paired.published within in
      let (row, found, slot) = index-IsFilled o.object f i counted_in in
      let (vaddr, at) =
        index-some chunk_size o.object.addresses i f.paired.addresses_valid
          (subst (λ n. i < n) (sym f.paired.same_count) counted_in) in
      (
        row,
        vaddr,
        found,
        record {
          text =
              read_row-some [] (λ r. r.text) (λ r. format_disasm_text r.instruction_text) s o i row
                loaded within slot;
          machine_code =
              read_row-some [] (λ r. r.bytes) (λ r. pop_spaces r.machine_code) s o i row loaded
                within slot;
          flow =
              read_row-some Flow.none (λ r. Flow.none) (λ r. r.flow) s o i row loaded within slot;
          target = read_row-some 0 (λ r. 0) (λ r. r.target) s o i row loaded within slot;
        },
        read_row-real 0 (λ r. r.vaddr) (λ p j. index chunk_size p.object.addresses j) s o i loaded
              within
            ∙ at,
      ),
)
