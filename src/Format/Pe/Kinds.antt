-- ===== src/Format/Pe/Kinds.antt =====
-- The section lists of a PE file against its section table: src/disassembler/format/pe/pe_sections.hpp.
use voidwalk.Common.{
  ℕ, suc, ◌*◌, if◌then◌else◌, ◌≡◌, Bool, true, false, List, [], ◌∷◌, ◌++◌, ok, add64,
}
use voidwalk.AddressSpace.{AddressSpace, read_u32}
use voidwalk.Format.Section.{Header, Sections}
use voidwalk.Format.Pe.{
  SectionKind, code_kind, data_kind, rodata_kind, bss_kind, none_kind, classify, is_kept,
  entry_header,
}

-- A row of the section table: its Characteristics and, if its kind is kept, its Header.
pub record Row : Type 0 where
  pub characteristics : ℕ
  pub header : Header

-- The rows at `entry`, 40 bytes apart, are those of the list; a row that is not kept has no Header.
pub data Rows (space : AddressSpace) (image_base : ℕ) (table : ℕ) : ℕ → ℕ → List Row → Type 0 where
  done : (i : ℕ) → Rows space image_base table i 0 []
  kept :
      {i left : ℕ} {rows : List Row} (r : Row)
      → read_u32 space (add64 (add64 table (i * 40)) 36) ≡ ok r.characteristics
      → is_kept (classify r.characteristics) ≡ true
      → entry_header space image_base (add64 table (i * 40)) ≡ ok r.header
      → Rows space image_base table (suc i) left rows
      → Rows space image_base table i (suc left) (r ∷ rows)
  skipped :
      {i left : ℕ} {rows : List Row} (c : ℕ)
      → read_u32 space (add64 (add64 table (i * 40)) 36) ≡ ok c
      → is_kept (classify c) ≡ false
      → Rows space image_base table (suc i) left rows
      → Rows space image_base table i (suc left) rows

same_kind : SectionKind → SectionKind → Bool
same_kind code_kind code_kind = true
same_kind data_kind data_kind = true
same_kind rodata_kind rodata_kind = true
same_kind bss_kind bss_kind = true
same_kind none_kind none_kind = true
same_kind _ _ = false

-- The headers of the rows of one kind, in table order.
unfoldable pub of_kind : SectionKind → List Row → List Header
unfolding same_kind
of_kind k [] = []
of_kind k (r ∷ rows) =
    if same_kind k (classify r.characteristics) then r.header ∷ of_kind k rows else of_kind k rows

abbrev pub HasKinds : List Row → Sections → Sections → Type 0
HasKinds rows s t =
    (t.text ≡ s.text ++ of_kind code_kind rows)
    × (t.data_sections ≡ s.data_sections ++ of_kind data_kind rows)
    × (t.read_only ≡ s.read_only ++ of_kind rodata_kind rows)
    × (t.bss ≡ s.bss ++ of_kind bss_kind rows)
