-- ===== src/Prelude/Words.antt =====
-- Unsigned machine words: `size_t` is 64 bits wide, `uint32_t` 32 bits.
use Prim.Native.Nat.{ℕ, ◌+◌, ◌-◌, ◌*◌, ◌%◌, ◌^◌, ◌≤◌, ◌<◌}
use mathlib.Core.Path.{◌≡◌}
use native.Mathlib.Omega.{arith}

abbrev pub u64_mod : ℕ
u64_mod = 2 ^ 64

abbrev pub u32_mod : ℕ
u32_mod = 2 ^ 32

abbrev pub to_u32 : ℕ → ℕ
to_u32 a = a % u32_mod

abbrev pub to_u8 : ℕ → ℕ
to_u8 a = a % 256

abbrev pub add64 : ℕ → ℕ → ℕ
add64 a b = (a + b) % u64_mod

abbrev pub sub64 : ℕ → ℕ → ℕ
sub64 a b = (a + u64_mod - b) % u64_mod

abbrev pub add32 : ℕ → ℕ → ℕ
add32 a b = (a + b) % u32_mod

abbrev pub mul32 : ℕ → ℕ → ℕ
mul32 a b = (a * b) % u32_mod

pub add64-small : (a b : ℕ) → a + b < u64_mod → add64 a b ≡ a + b
add64-small a b h = omega arith

pub sub64-small : (a b : ℕ) → b ≤ a → a < u64_mod → sub64 a b ≡ a - b
sub64-small a b h k = omega arith
