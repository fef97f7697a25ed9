-- ===== src/X86/Types.antt =====
-- The table types of src/arch/x86_64/x86_64_mnemonic.hpp.
use voidwalk.Common.{
  ℕ, ℤ, pos, negsuc, Bool, false, String, List, [], ◌∷◌, ◌==◌, if◌then◌else◌, ltb,
}

-- The enumerators of ADDRESSING and SIZE, in lower case.
pub data Addressing : Type 0 where
  none e g i j o s m a z al eax dx cl one : Addressing
  ecx edx ebx esp ebp esi edi : Addressing
  es cs ss ds : Addressing
  x y f : Addressing
  dl bl ah ch dh bh : Addressing
  st : Addressing
  v w p q : Addressing
  h l vsib : Addressing

pub data Size : Type 0 where
  none b w v z p a bs d y dq : Size

pub record TableOperand : Type 0 where
  pub addressing_mode : Addressing
  pub operand_size : Size
  pub value : String

-- OP(mode, size, value)
abbrev pub op : Addressing → Size → String → TableOperand
op mode size value = record { addressing_mode = mode; operand_size = size; value = value }

pub data Default64 : Type 0 where
  no_default d64 f64 : Default64

-- `operands[3]` is three fields.
pub record OpcodeInfo : Type 0 where
  pub text : String
  pub text16 : String
  pub has_rm_byte : Bool
  pub operand0 : TableOperand
  pub operand1 : TableOperand
  pub operand2 : TableOperand
  pub group_number : ℤ
  pub is_invalid : Bool
  pub text64 : String
  pub default64 : Default64
  pub mandatory_prefix : ℕ
  pub nds : Bool

abbrev pub no_operand : TableOperand
no_operand = op Addressing.none Size.none ""

-- `OpcodeInfo{}`
abbrev pub empty_info : OpcodeInfo
empty_info = record {
  text = "";
  text16 = "";
  has_rm_byte = false;
  operand0 = no_operand;
  operand1 = no_operand;
  operand2 = no_operand;
  group_number = pos 0;
  is_invalid = false;
  text64 = "";
  default64 = no_default;
  mandatory_prefix = 0;
  nds = false;
}

abbrev pub operands : OpcodeInfo → List TableOperand
operands info = info.operand0 ∷ info.operand1 ∷ info.operand2 ∷ []

-- A group number of -1
abbrev pub not_group : ℤ
not_group = negsuc 0

-- `group > 0`
abbrev pub is_positive : ℤ → Bool
is_positive (pos n) = ltb 0 n
is_positive (negsuc n) = false

pub record Simd : Type 0 where
  pub map : ℕ
  pub pp : ℕ
  pub mandatory : Bool
  pub vex : ℕ
  pub vvvv : ℕ
  pub l_bit : ℕ
  pub w_bit : ℕ

abbrev pub no_simd : Simd
no_simd = record { map = 0; pp = 0; mandatory = false; vex = 0; vvvv = 0; l_bit = 0; w_bit = 0 }

-- One statement `table[i] = …` or `table[i].field = …` of a function that builds a table.
abbrev pub Write : Type 0
Write = ℕ × (OpcodeInfo → OpcodeInfo)

-- The row of the index after the writes, in the order in which they stand.
unfoldable pub row_at : List Write → OpcodeInfo → ℕ → OpcodeInfo
row_at [] row index = row
row_at ((at, change) ∷ writes) row index =
    row_at writes (if at == index then change row else row) index
