-- ===== src/Common/Words.antt =====
-- Unsigned machine integers: a value of w bits is a number below 2 ^ w, and the arithmetic wraps.
use Prim.Native.Nat.{ℕ, ◌+◌, ◌*◌, ◌%◌}

-- 2 ^ 16, 2 ^ 32 and 2 ^ 64
abbrev pub mod16 : ℕ
mod16 = 65536

abbrev pub mod32 : ℕ
mod32 = 4294967296

abbrev pub mod64 : ℕ
mod64 = 18446744073709551616

-- uint32_t and uint64_t arithmetic
abbrev pub add32 : ℕ → ℕ → ℕ
add32 a b = (a + b) % mod32

abbrev pub add64 : ℕ → ℕ → ℕ
add64 a b = (a + b) % mod64

abbrev pub mul64 : ℕ → ℕ → ℕ
mul64 a b = (a * b) % mod64
