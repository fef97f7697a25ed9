-- ===== src/X86/Decoder/Bytes.antt =====
-- The state that X86Decoder::decodeLine of src/arch/x86_64/x86_64_decoder.cpp keeps, its two ways to
-- throw, and the reads through which every byte goes.
use voidwalk.Common.{
  ℕ, zero, suc, ◌+◌, ◌*◌, ◌==◌, if◌then◌else◌, Bool, false, List, [], ◌∷◌, ◌++◌, length, Error,
  Result, ok, err,
}
use Prim.{Unit, tt}
use voidwalk.AddressSpace.{AddressSpace, read_u8}
use voidwalk.X86.Types.{OpcodeInfo, empty_info, Simd, no_simd}

-- x86_64::Fields less `bytes` and `length`. `displacement` is the 64-bit two's complement, and
-- `immediates` holds the entries that were stored, in order.
pub record Fields : Type 0 where
  pub is_64bit : Bool
  pub is_invalid : Bool
  pub has_lock : Bool
  pub rep_prefix : ℕ
  pub segment_prefix : ℕ
  pub rex_prefix : ℕ
  pub op_size : ℕ
  pub addr_size : ℕ
  pub opcode : ℕ
  pub info : OpcodeInfo
  pub has_mod_rm : Bool
  pub mod_field : ℕ
  pub reg : ℕ
  pub rm : ℕ
  pub has_sib : Bool
  pub scale : ℕ
  pub index : ℕ
  pub base : ℕ
  pub has_displacement : Bool
  pub displacement : ℕ
  pub immediates : List ℕ

-- The initial values, and `is64Bit_`
abbrev pub no_fields : Bool → Fields
no_fields is_64bit = record {
  is_64bit = is_64bit;
  is_invalid = false;
  has_lock = false;
  rep_prefix = 0;
  segment_prefix = 0;
  rex_prefix = 0;
  op_size = 32;
  addr_size = 32;
  opcode = 0;
  info = empty_info;
  has_mod_rm = false;
  mod_field = 0;
  reg = 0;
  rm = 0;
  has_sib = false;
  scale = 1;
  index = 0;
  base = 0;
  has_displacement = false;
  displacement = 0;
  immediates = [];
}

-- `bytes` are the first `length` entries of `fields.bytes`, and the two flags are the local
-- variables hasOpSizePrefix and hasAddrSizePrefix.
pub record Decoding : Type 0 where
  pub bytes : List ℕ
  pub fields : Fields
  pub simd : Simd
  pub has_op_size_prefix : Bool
  pub has_addr_size_prefix : Bool

abbrev pub start : Bool → Decoding
start is_64bit = record {
  bytes = [];
  fields = no_fields is_64bit;
  simd = no_simd;
  has_op_size_prefix = false;
  has_addr_size_prefix = false;
}

-- `too_long` is the local exception TooLong; the state outlives it.
pub data Outcome (A : Type 0) : Type 0 where
  done : A → Decoding → Outcome A
  too_long : Decoding → Outcome A
  failed : Error → Outcome A

abbrev pub Step : Type 0 → Type 0
Step A = Decoding → Outcome A

abbrev pub and_then : {A B : Type 0} → Outcome A → (A → Step B) → Outcome B
and_then (done a s) f = f a s
and_then (too_long s) f = too_long s
and_then (failed e) f = failed e

infixl 5 ◌>>=◌
unfoldable pub ◌>>=◌ : {A B : Type 0} → Step A → (A → Step B) → Step B
(m >>= f) s = and_then (m s) f

infixl 5 ◌>>◌
abbrev pub ◌>>◌ : {A B : Type 0} → Step A → Step B → Step B
m >> n = m >>= λ _. n

unfoldable pub pure : {A : Type 0} → A → Step A
pure a s = done a s

unfoldable pub get : Step Decoding
get s = done s s

unfoldable pub modify : (Fields → Fields) → Step Unit
modify f s = done tt (record s { fields = f s.fields })

unfoldable pub modify_simd : (Simd → Simd) → Step Unit
modify_simd f s = done tt (record s { simd = f s.simd })

unfoldable pub set_op_size_prefix : Bool → Step Unit
set_op_size_prefix b s = done tt (record s { has_op_size_prefix = b })

unfoldable pub set_addr_size_prefix : Bool → Step Unit
set_addr_size_prefix b s = done tt (record s { has_addr_size_prefix = b })

unfoldable pub lift : {A : Type 0} → Result A → Step A
lift (ok a) s = done a s
lift (err e) s = failed e

-- A byte of the file as the next byte of the instruction.
unfoldable pub take_byte : Decoding → Result ℕ → Outcome ℕ
take_byte s (ok b) = done b (record s { bytes = s.bytes ++ b ∷ [] })
take_byte s (err e) = failed e

-- The lambda nextByte
unfoldable pub next_byte : AddressSpace → ℕ → Step ℕ
unfolding take_byte
next_byte contents file_offset s =
    if length s.bytes == 15
    then too_long s
    else take_byte s (read_u8 contents (file_offset + length s.bytes))

-- A read that consumes nothing: what the VEX test does.
unfoldable pub peek : AddressSpace → ℕ → Step ℕ
unfolding lift
peek contents file_offset s = lift (read_u8 contents (file_offset + length s.bytes)) s

-- The lambda readLittleEndian
unfoldable pub read_little_endian : AddressSpace → ℕ → ℕ → Step ℕ
unfolding pure ◌>>=◌
read_little_endian contents file_offset zero = pure 0
read_little_endian contents file_offset (suc byte_count) = do
  b ← next_byte contents file_offset
  rest ← read_little_endian contents file_offset byte_count
  pure (b + 256 * rest)

unfoldable pub skip : Step Unit
unfolding pure
skip = pure tt

unfoldable pub when : Bool → Step Unit → Step Unit
unfolding skip
when test step = if test then step else skip
