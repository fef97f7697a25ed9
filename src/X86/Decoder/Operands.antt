-- ===== src/X86/Decoder/Operands.antt =====
-- What follows the opcode, from ModRM to the immediates: X86Decoder::decodeLine of
-- src/arch/x86_64/x86_64_decoder.cpp. Shifts and masks of the fields of a byte are written as
-- quotients and remainders.
use Prim.{Unit}
use voidwalk.Common.{
  ℕ, ◌+◌, ◌-◌, ◌*◌, ◌/◌, ◌%◌, ◌^◌, ◌==◌, ltb, if◌then◌else◌, Bool, true, false, not, ◌&&◌, ◌||◌,
  List, [], ◌∷◌, ◌++◌, length, Result, ok, mod64,
}
use voidwalk.AddressSpace.{AddressSpace}
use voidwalk.X86.Types.{Addressing, Size, TableOperand, OpcodeInfo, Default64}
use voidwalk.X86.OneByte.{opcode_table, resolved_info}
use voidwalk.X86.TwoByte.{
  two_byte_table, two_byte_resolved_info, three_byte_resolved_info, three_d_now_table,
}
use voidwalk.X86.Vex.{vex_resolved_info}
use voidwalk.X86.Decoder.Bytes.{
  Fields, Decoding, Step, skip, when, ◌>>=◌, ◌>>◌, pure, get, modify, modify_simd,
  set_op_size_prefix, lift, next_byte, read_little_endian,
}

-- The lambda signExtend, as a 64-bit two's complement
unfoldable pub sign_extend : ℕ → ℕ → ℕ
sign_extend value byte_count =
    if ltb value (2 ^ (8 * byte_count - 1)) then value else value + (mod64 - 2 ^ (8 * byte_count))

unfoldable pub is_f64 : Default64 → Bool
is_f64 Default64.f64 = true
is_f64 _ = false

unfoldable pub is_d64 : Default64 → Bool
is_d64 Default64.d64 = true
is_d64 _ = false

-- The addressing modes whose operand stands in the bytes after the displacement
unfoldable pub is_encoded : Addressing → Bool
is_encoded Addressing.i = true
is_encoded Addressing.j = true
is_encoded Addressing.a = true
is_encoded Addressing.o = true
is_encoded Addressing.l = true
is_encoded _ = false

-- The switch on the operand's size, and moffs
unfoldable pub immediate_bytes : Fields → TableOperand → ℕ
immediate_bytes f operand = elim operand.addressing_mode [
  | Addressing.o ↦ f.addr_size / 8
  | _ ↦ elim operand.operand_size [
    | Size.b ↦ 1
    | Size.bs ↦ 1
    | Size.w ↦ 2
    | Size.d ↦ 4
    | Size.v ↦ if f.rex_prefix / 8 % 2 == 1 then 8 else if f.op_size == 16 then 2 else 4
    | _ ↦ if f.op_size == 16 then 2 else 4
  ]
]

-- The immediates that are sign-extended
unfoldable pub extends : Fields → Size → Bool
extends f Size.bs = true
extends f Size.z = f.op_size == 64
extends f _ = false

module _ (contents : AddressSpace) (file_offset : ℕ) (is_64bit : Bool) where
  -- MOD R/M
  unfoldable pub has_mod_rm_byte : Decoding → Bool
  unfolding opcode_table two_byte_table
  has_mod_rm_byte s =
      let opcode = s.fields.opcode in
      if not (s.simd.vex == 0)
      then not ((s.simd.map == 1) && (opcode == 0x77))
      else if s.simd.map == 0
      then (opcode_table opcode).has_rm_byte
      else if s.simd.map == 1
      then (two_byte_table opcode).has_rm_byte
      else true

  -- The row for an opcode and its ModRM byte, 0 where it has none.
  unfoldable pub row_of : Decoding → ℕ → Result OpcodeInfo
  unfolding resolved_info two_byte_resolved_info three_byte_resolved_info vex_resolved_info
  row_of s mod_rm =
      let opcode = s.fields.opcode in
      if not (s.simd.vex == 0)
      then ok (vex_resolved_info opcode mod_rm s.simd)
      else if s.simd.map == 0
      then resolved_info opcode mod_rm is_64bit
      else if s.simd.map == 1
      then ok (two_byte_resolved_info opcode mod_rm s.simd)
      else ok (three_byte_resolved_info opcode s.simd)

  unfoldable pub read_mod_rm : Step ℕ
  unfolding ◌>>=◌ modify get pure has_mod_rm_byte
  read_mod_rm = do
    s ← get
    if has_mod_rm_byte s
        then (do
          mod_rm ← next_byte contents file_offset
          modify (λ f. record f {
            has_mod_rm = true;
            mod_field = mod_rm / 64;
            reg = mod_rm / 8 % 8 + f.rex_prefix / 4 % 2 * 8;
            rm = mod_rm % 8 + f.rex_prefix % 2 * 8;
          })
          pure mod_rm)
        else pure 0

  unfoldable pub select_row : ℕ → Step Unit
  unfolding ◌>>=◌ modify get lift row_of
  select_row mod_rm = do
    s ← get
    info ← lift (row_of s mod_rm)
    modify (λ f. record f { info = info })

  -- WIDTHS
  unfoldable pub take_mandatory : Step Unit
  unfolding ◌>>=◌ modify modify_simd get set_op_size_prefix
  take_mandatory = do
    s ← get
    let mandatory =
        if not (s.simd.vex == 0)
        then not (s.simd.pp == 0)
        else not (s.fields.info.mandatory_prefix == 0)
    modify_simd (λ x. record x { mandatory = mandatory; pp = if mandatory then x.pp else 0 })
    if not mandatory
        then skip
        else if s.simd.pp == 1
        then set_op_size_prefix false
        else modify (λ f. record f { rep_prefix = 0 })

  unfoldable pub set_widths : Step Unit
  unfolding ◌>>=◌ modify get
  set_widths = do
    s ← get
    modify (λ f. record f {
      op_size =
          if (f.rex_prefix / 8 % 2 == 1) || (is_64bit && is_f64 f.info.default64)
          then 64
          else if s.has_op_size_prefix
          then 16
          else if is_64bit && is_d64 f.info.default64
          then 64
          else 32;
      addr_size =
          if is_64bit
          then (if s.has_addr_size_prefix then 32 else 64)
          else if s.has_addr_size_prefix
          then 16
          else 32;
    })

  -- SIB and DISPLACEMENT
  unfoldable pub read_sib : ℕ → Step Unit
  unfolding ◌>>=◌ modify
  read_sib rm_field = when (rm_field == 4) (do
    sib ← next_byte contents file_offset
    modify (λ f. record f {
      has_sib = true;
      scale = 2 ^ (sib / 64);
      index = sib / 8 % 8 + f.rex_prefix / 2 % 2 * 8;
      base = sib % 8 + f.rex_prefix % 2 * 8;
    }))

  unfoldable pub displacement_size : Fields → ℕ → ℕ
  displacement_size f rm_field =
      let short = if f.mod_field == 1 then 1 else 0 in
      let no_base = (rm_field == 5) || f.has_sib && (f.base % 8 == 5) in
      if f.addr_size == 16
      then (if (f.mod_field == 2) || (f.mod_field == 0) && (rm_field == 6) then 2 else short)
      else (if (f.mod_field == 2) || (f.mod_field == 0) && no_base then 4 else short)

  unfoldable pub read_displacement : ℕ → Step Unit
  unfolding ◌>>=◌ modify read_little_endian sign_extend
  read_displacement byte_count = when (not (byte_count == 0)) (do
    value ← read_little_endian contents file_offset byte_count
    modify (λ f. record f { has_displacement = true; displacement = sign_extend value byte_count }))

  unfoldable pub read_memory_operand : ℕ → Step Unit
  unfolding ◌>>=◌ get when read_sib read_displacement displacement_size
  read_memory_operand mod_rm = do
    s ← get
    when (s.fields.has_mod_rm && not (s.fields.mod_field == 3)) (do
      when (not (s.fields.addr_size == 16)) (read_sib (mod_rm % 8))
      sized ← get
      read_displacement (displacement_size sized.fields (mod_rm % 8)))

  -- 3DNow!
  unfoldable pub read_three_d_now : Step Unit
  unfolding ◌>>=◌ get modify three_d_now_table
  read_three_d_now = do
    s ← get
    when ((s.simd.vex == 0) && (s.simd.map == 1) && (s.fields.opcode == 0x0f)) (do
      b ← next_byte contents file_offset
      modify (λ f. record f { info = three_d_now_table b }))

  -- An operand of a jump counts from the address of the instruction.
  module _ (vaddr : ℕ) where
    -- The value that is stored, by the operand's addressing mode
    unfoldable pub immediate_value : Fields → ℕ → TableOperand → ℕ → ℕ → Step ℕ
    unfolding ◌>>=◌ pure sign_extend read_little_endian
    immediate_value f consumed operand byte_count value = elim operand.addressing_mode [
      | Addressing.a ↦ (do
        segment ← read_little_endian contents file_offset 2
        pure (value + segment * 2 ^ 32))
      | Addressing.j ↦
          let target = (vaddr + consumed + sign_extend value byte_count) % mod64 in
          pure (if is_64bit then target else target % 2 ^ (if f.op_size == 16 then 16 else 32))
      | Addressing.i ↦ pure (
          if extends f operand.operand_size
          then sign_extend value byte_count % 2 ^ f.op_size
          else value)
      | _ ↦ pure value
    ]

    -- IMMEDIATE, for one operand
    unfoldable pub read_immediate : TableOperand → Step Unit
    unfolding ◌>>=◌ get modify immediate_bytes read_little_endian immediate_value
    read_immediate operand = do
      s ← get
      when (is_encoded operand.addressing_mode && ltb (length s.fields.immediates) 2) (do
        let byte_count = immediate_bytes s.fields operand
        value ← read_little_endian contents file_offset byte_count
        after ← get
        stored ← immediate_value s.fields (length after.bytes) operand byte_count value
        modify (λ f. record f { immediates = f.immediates ++ stored ∷ [] }))

    unfoldable pub read_immediates : List TableOperand → Step Unit
    unfolding ◌>>=◌ skip read_immediate
    read_immediates [] = skip
    read_immediates (operand ∷ rest) = do read_immediate operand; read_immediates rest
    -- What follows the opcode
