-- ===== src/Format/Section.antt =====
-- src/disassembler/format/section.hpp, and the section lists of src/disassembler/disassembler.hpp.
use voidwalk.Common.{ℕ, List, []}

pub record Header : Type 0 where
  pub vaddr : ℕ
  pub offset : ℕ
  pub size : ℕ

-- A section that the file does not have.
abbrev pub absent : Header
absent = record { vaddr = 0; offset = 0; size = 0 }

pub record Sections : Type 0 where
  pub text : List Header
  pub data_sections : List Header
  pub read_only : List Header
  pub bss : List Header

abbrev pub no_sections : Sections
no_sections = record { text = []; data_sections = []; read_only = []; bss = [] }
