-- ===== src/X86/Render/Memory.antt =====
-- The memory operand of an instruction and its segment: the constructor of x86_64 in
-- src/arch/x86_64/x86_64_instruction.hpp.
use voidwalk.Common.{
  ℕ, ◌-◌, ◌^◌, ◌%◌, ◌==◌, leb, if◌then◌else◌, Bool, true, false, not, ◌&&◌, ◌||◌, List, [], ◌∷◌,
  ◌++◌, Option, none, some, Text, codes, hex, decimal, bytes_eq, mod64,
}
use voidwalk.X86.Types.{Addressing, Size, TableOperand, Simd, operands}
use voidwalk.X86.Registers.{register_of, name_at}
use voidwalk.X86.OneByte.{prefix_table}
use voidwalk.X86.Decoder.Bytes.{Fields}

-- The lambdas registerName, widthOf, toHex and vectorName
unfoldable pub register_name : Fields → ℕ → ℕ → Text
unfolding register_of
register_name f number width = codes (register_of number width (not (f.rex_prefix == 0)))

unfoldable pub width_of : Fields → Size → ℕ
width_of f Size.b = 8
width_of f Size.w = 16
width_of f Size.d = 32
width_of f Size.z = if f.op_size == 16 then 16 else 32
width_of f Size.y = if f.op_size == 64 then 64 else 32
width_of f _ = f.op_size

unfoldable pub to_hex : ℕ → Text
unfolding hex
to_hex value = codes "0x" ++ hex value

unfoldable pub is_dq : Size → Bool
is_dq Size.dq = true
is_dq _ = false

unfoldable pub vector_name : Simd → ℕ → Size → Text
unfolding decimal is_dq
vector_name simd number size =
    (if not (simd.l_bit == 0) && not (is_dq size) then codes "YMM" else codes "XMM")
    ++ decimal number

unfoldable pub is_indirect : Fields → Simd → Bool
is_indirect f simd = (simd.map == 0) && (f.opcode == 0xff) && ((f.reg % 8 == 2) || (f.reg % 8 == 4))

unfoldable pub has_notrack : Fields → Simd → Bool
unfolding is_indirect
has_notrack f simd = is_indirect f simd && (f.segment_prefix == 0x3e)

unfoldable pub segment_text : Fields → Simd → Text
unfolding has_notrack prefix_table
segment_text f simd =
    if not (f.segment_prefix == 0) && not (has_notrack f simd)
    then codes (prefix_table f.segment_prefix)
    else []

-- The loop for `vsib`: the last such operand's size
unfoldable pub vsib_size : List TableOperand → Option Size → Option Size
vsib_size [] found = found
vsib_size (operand ∷ rest) found = elim operand.addressing_mode [
  | Addressing.vsib ↦ vsib_size rest (some operand.operand_size)
  | _ ↦ vsib_size rest found
]

-- The register that a SIB byte's index names; the number 4 names none, but for a gather.
unfoldable pub index_text : Fields → Simd → Option Size → Text → Text
unfolding vector_name register_name decimal
index_text f simd none base =
    if f.index == 4
    then base
    else base
      ++ (if bytes_eq base [] then [] else codes " + ")
      ++ register_name f f.index f.addr_size
      ++ codes "*"
      ++ decimal f.scale
index_text f simd (some size) base =
    base
    ++ (if bytes_eq base [] then [] else codes " + ")
    ++ vector_name simd f.index size
    ++ codes "*"
    ++ decimal f.scale

-- Before the displacement
unfoldable pub address_text : Fields → Simd → Text
unfolding register_name index_text vsib_size
address_text f simd =
    let rm_field = f.rm % 8 in
    if f.addr_size == 16
    then (if (f.mod_field == 0) && (rm_field == 6)
        then []
        else codes (
            name_at ("BX + SI" ∷ "BX + DI" ∷ "BP + SI" ∷ "BP + DI" ∷ "SI" ∷ "DI" ∷ "BP" ∷ "BX" ∷ [])
              rm_field))
    else if f.has_sib
    then index_text f simd (vsib_size (operands f.info) none)
        (if (f.mod_field == 0) && (f.base % 8 == 5) then [] else register_name f f.base f.addr_size)
    else if (f.mod_field == 0) && (rm_field == 5)
    then (if f.is_64bit then (if f.addr_size == 64 then codes "RIP" else codes "EIP") else [])
    else register_name f f.rm f.addr_size

-- The displacement behind an address, or alone
unfoldable pub displaced : Fields → Text → Text
unfolding to_hex
displaced f address =
    if not f.has_displacement
    then address
    else if bytes_eq address []
    then to_hex (f.displacement % 2 ^ f.addr_size)
    else if leb (2 ^ 63) f.displacement
    then address ++ codes " - " ++ to_hex (mod64 - f.displacement)
    else address ++ codes " + " ++ to_hex f.displacement

unfoldable pub memory_operand : Fields → Simd → Text
unfolding address_text displaced
memory_operand f simd =
    if f.has_mod_rm && not (f.mod_field == 3)
    then codes "[" ++ displaced f (address_text f simd) ++ codes "]"
    else []
