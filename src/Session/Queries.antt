-- ===== src/Session/Queries.antt =====
-- What a frontend asks a session: the accessors of src/analysis_session.hpp and
-- src/analysis_session.cpp.
use voidwalk.Common.{
  ℕ, Bool, false, if◌then◌else◌, not, ◌&&◌, String, List, [], ◌∷◌, Option, none, some,
}
use voidwalk.AddressSpace.{size}
use voidwalk.Arch.{arch_name, is_64bit}
use voidwalk.Format.Section.{Header}
use voidwalk.Format.Detect.{binary_arch, binary_sections, binary_entry}
use voidwalk.Session.{Session, is_decoding}

unfoldable pub decode_note : Session → String
unfolding is_decoding
decode_note s = elim s.decode_state [
  | none ↦ ""
  | some state ↦ if state.running then "" else state.note
]

-- Whether throwIfFileChanged throws
unfoldable pub throws_file_changed : Session → Bool
throws_file_changed s = elim s.decode_state [
  | none ↦ false
  | some state ↦ not state.running && state.file_changed
]

unfoldable pub architecture : Session → String
unfolding arch_name binary_arch
architecture s = elim s.disassembler [ none ↦ "" | some o ↦ arch_name (binary_arch o.binary) ]

unfoldable pub is64bit : Session → Bool
unfolding is_64bit binary_arch
is64bit s = elim s.disassembler [ none ↦ false | some o ↦ is_64bit (binary_arch o.binary) ]

unfoldable pub entry_point : Session → ℕ
unfolding binary_entry
entry_point s = elim s.disassembler [ none ↦ 0 | some o ↦ binary_entry o.binary ]

unfoldable pub binary_size : Session → ℕ
unfolding size
binary_size s = elim s.space [ none ↦ 0 | some space ↦ size space ]

-- `text.front()`, where there is one
abbrev pub front : List Header → Option Header
front [] = none
front (h ∷ rest) = some h

unfoldable pub text_offset : Session → ℕ
unfolding binary_sections
text_offset s = elim s.disassembler [
  | none ↦ 0
  | some o ↦ elim (front (binary_sections o.binary).text) [ none ↦ 0 | some h ↦ h.offset ]
]

unfoldable pub text_vaddr : Session → ℕ
unfolding binary_sections
text_vaddr s = elim s.disassembler [
  | none ↦ 0
  | some o ↦ elim (front (binary_sections o.binary).text) [ none ↦ 0 | some h ↦ h.vaddr ]
]
