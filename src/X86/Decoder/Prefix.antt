-- ===== src/X86/Decoder/Prefix.antt =====
-- The prefixes and the opcode of an instruction: X86Decoder::decodeLine of
-- src/arch/x86_64/x86_64_decoder.cpp. Shifts and masks of the fields of a byte are written as
-- quotients and remainders.
use Prim.{Unit}
use voidwalk.Common.{
  ℕ, zero, suc, ◌+◌, ◌-◌, ◌*◌, ◌/◌, ◌%◌, ◌==◌, ltb, leb, if◌then◌else◌, Bool, true, false, not,
  ◌&&◌, ◌||◌, out_of_fuel, err,
}
use voidwalk.AddressSpace.{AddressSpace}
use voidwalk.X86.OneByte.{opcode_table, is_prefix}
use voidwalk.X86.Decoder.Bytes.{
  Step, skip, when, ◌>>=◌, ◌>>◌, pure, get, modify, modify_simd, set_op_size_prefix,
  set_addr_size_prefix, lift, next_byte, peek,
}

module _ (contents : AddressSpace) (file_offset : ℕ) (is_64bit : Bool) where
  unfoldable pub note_prefix : ℕ → Step Unit
  unfolding modify set_op_size_prefix set_addr_size_prefix
  note_prefix b =
      if b == 0x66
      then set_op_size_prefix true
      else if b == 0x67
      then set_addr_size_prefix true
      else if b == 0xf0
      then modify (λ f. record f { has_lock = true })
      else if (b == 0xf2) || (b == 0xf3)
      then modify (λ f. record f { rep_prefix = b })
      else modify (λ f. record f { segment_prefix = b })

  -- PREFIXES: the first byte that is none. An instruction has at most 15 bytes, so 16 rounds are
  -- enough.
  unfoldable pub prefixes : ℕ → ℕ → Step ℕ
  unfolding pure lift ◌>>=◌ modify note_prefix is_prefix
  prefixes zero current = lift (err out_of_fuel)
  prefixes (suc fuel) current =
      if is_64bit && (current / 16 == 4)
      then (do
        modify (λ f. record f { rex_prefix = current })
        following ← next_byte contents file_offset
        prefixes fuel following)
      else if not (is_prefix current)
      then pure current
      else (do
        modify (λ f. record f { rex_prefix = 0 })
        note_prefix current
        following ← next_byte contents file_offset
        prefixes fuel following)

  -- 0F, 0F 38 and 0F 3A
  unfoldable pub escape : Step Unit
  unfolding ◌>>=◌ get modify modify_simd pure when skip
  escape = do
    modify_simd (λ x. record x { map = 1 })
    second ← next_byte contents file_offset
    modify (λ f. record f { opcode = second })
    when ((second == 0x38) || (second == 0x3a)) (do
      modify_simd (λ x. record x { map = if second == 0x38 then 2 else 3 })
      third ← next_byte contents file_offset
      modify (λ f. record f { opcode = third }))
    s ← get
    modify_simd (λ x. record x {
      pp =
          if s.fields.rep_prefix == 0xf2
          then 3
          else if s.fields.rep_prefix == 0xf3
          then 2
          else if s.has_op_size_prefix
          then 1
          else 0;
    })

  -- The bytes of a VEX prefix: whether the map is one of the three that are known.
  unfoldable pub vex_prefix : ℕ → Step Bool
  unfolding ◌>>=◌ get modify modify_simd pure
  vex_prefix current = do
    let three_byte = current == 0xc4
    vex1 ← next_byte contents file_offset
    vex2 ← if three_byte then next_byte contents file_offset else pure vex1
    let w_bit = if three_byte && leb 0x80 vex2 then 1 else 0
    let opcode_map = if three_byte then vex1 % 32 else 1
    modify_simd (λ x. record x {
      vex = current;
      map = opcode_map;
      pp = vex2 % 4;
      w_bit = w_bit;
      l_bit = vex2 / 4 % 2;
      vvvv = (255 - vex2) / 8 % (if is_64bit then 16 else 8);
    })
    modify (λ f. record f {
      rex_prefix =
          if is_64bit
          then 0x40
            + w_bit * 8
            + (if three_byte then (255 - vex1) / 32 % 8 else (255 - vex1) / 128 % 2 * 4)
          else f.rex_prefix;
    })
    if ltb opcode_map 1 || ltb 3 opcode_map then pure false else (do
      opcode ← next_byte contents file_offset
      modify (λ f. record f { opcode = opcode })
      pure true)

  unfoldable pub is_vex : ℕ → Step Bool
  unfolding ◌>>=◌ pure
  is_vex current =
      if not ((current == 0xc4) || (current == 0xc5))
      then pure false
      else if is_64bit
      then pure true
      else (do following ← peek contents file_offset; pure (leb 0xc0 following))

  -- OPCODE: whether the instruction goes on. Where it does not, it is emitted as invalid.
  unfoldable pub read_opcode : ℕ → Step Bool
  unfolding ◌>>=◌ modify pure escape is_vex vex_prefix opcode_table
  read_opcode current = do
    modify (λ f. record f { opcode = current })
    if current == 0x0f then (do escape; pure true) else (do
      vex ← is_vex current
      if vex
          then vex_prefix current
          else pure (not (is_64bit && (opcode_table current).is_invalid)))
