-- ===== src/Gui/Fallback.antt =====
-- The raw bytes of a binary whose decoder is a stub: Session::buildFallback of src/gui/session.cpp.
pub mod Bounds
use voidwalk.Common.{
  ℕ, zero, suc, ◌+◌, ◌-◌, ◌*◌, ◌≤◌, ◌==◌, ltb, if◌then◌else◌, Bool, true, false, Bool-cases, inl,
  inr, List, [], ◌∷◌, ◌++◌, length, Result, ok, err, ◌>>=◌, ◌≡◌, refl, arith, Text, codes, add64,
}
use voidwalk.AddressSpace.{AddressSpace}
use voidwalk.Format.Section.{Header}
use voidwalk.Session.Bytes.{bytes_of}
use voidwalk.Gui.Layout.{hex_byte_text}

-- `bytes` and `text` are built from the run of bytes that the row shows.
pub record DisasmRow : Type 0 where
  pub vaddr : ℕ
  pub bytes : Text
  pub text : Text

-- The two inner loops, with what they put before each byte but the first
unfoldable pub joined : Text → Text → List ℕ → Text
unfolding hex_byte_text
joined before between [] = []
joined before between (b ∷ []) = before ++ hex_byte_text b
joined before between (b ∷ c ∷ bs) = before ++ hex_byte_text b ++ joined between between (c ∷ bs)

unfoldable pub fallback_row : ℕ → List ℕ → DisasmRow
unfolding joined
fallback_row vaddr run = record {
  vaddr = vaddr;
  bytes = joined [] (codes " ") run;
  text = codes "db " ++ joined (codes "0x") (codes ", 0x") run;
}

-- The first eight, and the rest
abbrev pub eight : List ℕ → List ℕ × List ℕ
eight (a ∷ b ∷ c ∷ d ∷ e ∷ f ∷ g ∷ h ∷ rest) = (a ∷ b ∷ c ∷ d ∷ e ∷ f ∷ g ∷ h ∷ [], rest)
eight short = (short, [])

-- The loop over a section's bytes: the rows from the byte `i` on, one for eight bytes.
unfoldable pub rows_of : ℕ → ℕ → ℕ → List ℕ → List DisasmRow
unfolding fallback_row
rows_of zero vaddr i raw = []
rows_of (suc rounds) vaddr i [] = []
rows_of (suc rounds) vaddr i (b ∷ raw) =
    let (run, rest) = eight (b ∷ raw) in
    fallback_row (add64 vaddr i) run ∷ rows_of rounds vaddr (i + 8) rest

abbrev pub max_bytes : ℕ
max_bytes = 4096

-- The loop over the sections. The bytes of a section are at most the budget, so that their number
-- bounds the rounds.
unfoldable pub fallback_from : AddressSpace → ℕ → List Header → Result (List DisasmRow)
unfolding bytes_of rows_of
fallback_from space budget [] = ok []
fallback_from space budget (text ∷ rest) =
    let skipped = fallback_from space budget rest in
    if budget == 0 then ok [] else if text.size == 0 then skipped else (do
      raw ← bytes_of space text.offset (if ltb text.size budget then text.size else budget)
      others ← fallback_from space (budget - length raw) rest
      ok (rows_of (length raw) text.vaddr 0 raw ++ others))

unfoldable pub build_fallback : AddressSpace → List Header → Result (List DisasmRow)
unfolding fallback_from
build_fallback space text = fallback_from space max_bytes text
