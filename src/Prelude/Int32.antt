-- ===== src/Prelude/Int32.antt =====
-- Rust's `i32` as its two's-complement bit pattern, a number below 2 ^ 32, on a 64-bit target.
-- Arithmetic wraps, as it does in a release build.
use Prim.Native.Nat.{ℕ, ◌+◌, ◌-◌, ◌%◌, ◌^◌, ◌<◌, ◌≤◌}
use mathlib.Core.Path.{◌≡◌}
use native.Mathlib.Omega.{arith}
use shulker.Prelude.Tests.{ltb, if◌then◌else◌}

abbrev pub I32 : Type 0
I32 = ℕ

-- The patterns from here on are the negative numbers.
abbrev i32_sign : ℕ
i32_sign = 2 ^ 31

-- `x as usize`: a negative number is sign-extended to 64 bits.
abbrev pub as_usize : I32 → ℕ
as_usize x = if ltb x (2 ^ 31) then x else x + (2 ^ 64 - 2 ^ 32)

-- `n as i32` of a `usize` or a `u32` keeps the low 32 bits.
abbrev pub as_i32 : ℕ → I32
as_i32 n = n % 2 ^ 32

abbrev pub sub_i32 : I32 → I32 → I32
sub_i32 a b = (a + 2 ^ 32 - b) % 2 ^ 32

-- Taking a length that fits from a nonnegative number is plain subtraction.
pub sub_i32_exact : (a n : ℕ) → a < 2 ^ 31 → n ≤ a → sub_i32 a (as_i32 n) ≡ a - n
sub_i32_exact a n h k = omega arith

pub as_usize_pos : (v : I32) → v < 2 ^ 31 → as_usize v ≡ v
as_usize_pos v h = ground arith
