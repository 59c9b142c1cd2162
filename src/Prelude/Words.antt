-- ===== src/Prelude/Words.antt =====
-- Machine words. A release build of the crates wraps: no profile asks for overflow checks.
use Prim.Native.Nat.{ℕ, ◌+◌, ◌/◌, ◌%◌, ◌^◌, ◌<◌}
use mathlib.Core.Path.{◌≡◌}
use native.Mathlib.Omega.{arith}
use inference_data_plane.Prelude.Tests.{eqb, if◌then◌else◌}

-- `u64`, and `usize` on the 64-bit targets
abbrev pub u64_mod : ℕ
u64_mod = 2 ^ 64

abbrev pub u32_mod : ℕ
u32_mod = 2 ^ 32

-- `a + b` on `u64`
abbrev pub add_u64 : ℕ → ℕ → ℕ
add_u64 a b = (a + b) % u64_mod

-- `usize::div_ceil` by 4
abbrev pub div_ceil_four : ℕ → ℕ
div_ceil_four n = if eqb (n % 4) 0 then n / 4 else n / 4 + 1

pub add_u64-eq : (a b : ℕ) → a + b < u64_mod → add_u64 a b ≡ a + b
add_u64-eq a b h = omega arith

pub add_u64-lt : (a b : ℕ) → add_u64 a b < u64_mod
add_u64-lt a b = omega arith
