-- ===== src/Arch.antt =====
-- src/arch/arch.hpp and src/arch/decoder.cpp: the instruction sets, and the decoder of each.
use voidwalk.Common.{Bool, true, false, String, Option, none, some}

pub data Arch : Type 0 where
  unknown x86 x86_64 arm32 aarch64 : Arch

unfoldable pub arch_name : Arch → String
arch_name unknown = "Unknown"
arch_name x86 = "x86"
arch_name x86_64 = "x86_64"
arch_name arm32 = "ARM32"
arch_name aarch64 = "AArch64"

unfoldable pub is_64bit : Arch → Bool
is_64bit x86_64 = true
is_64bit aarch64 = true
is_64bit _ = false

-- The subclasses of `Decoder`; the x86 one carries its `is64Bit_`.
pub data Decoder : Type 0 where
  x86_decoder : Bool → Decoder
  arm32_decoder : Decoder
  aarch64_decoder : Decoder

unfoldable pub make_decoder : Arch → Option Decoder
make_decoder x86 = some (x86_decoder false)
make_decoder x86_64 = some (x86_decoder true)
make_decoder arm32 = some arm32_decoder
make_decoder aarch64 = some aarch64_decoder
make_decoder unknown = none
