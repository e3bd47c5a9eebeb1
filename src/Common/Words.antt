-- ===== src/Common/Words.antt =====
-- Machine words. `std::size_t` is the 64-bit one of the platforms the program is built for.
use Prim.Native.Nat.{ℕ, ◌+◌, ◌-◌, ◌%◌, ◌^◌, ◌≤◌}
use mathlib.Core.Path.{◌≡◌}
use native.Mathlib.Omega.{arith}
use qwen3_tts_bridge_cpp.Common.Tests.{leb, if◌then◌else◌}

abbrev pub u16_max : ℕ
u16_max = 0xffff

abbrev pub u32_max : ℕ
u32_max = 0xffff_ffff

abbrev pub u64_max : ℕ
u64_max = 0xffff_ffff_ffff_ffff

-- Unsigned 64-bit sum and difference, with the wrap-around.
unfoldable pub add_u64 : ℕ → ℕ → ℕ
add_u64 a b = (a + b) % 2 ^ 64

unfoldable pub sub_u64 : ℕ → ℕ → ℕ
sub_u64 a b = if leb b a then a - b else a + 2 ^ 64 - b

pub add_u64_small : (a b : ℕ) → a + b ≤ u64_max → add_u64 a b ≡ a + b
unfolding add_u64
add_u64_small a b h = omega arith

pub sub_u64_small : (a b : ℕ) → b ≤ a → sub_u64 a b ≡ a - b
unfolding sub_u64
sub_u64_small a b h = ground arith
