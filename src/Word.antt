-- ===== src/Word.antt =====
-- The machine integers of the emulator. A `u8`, `u16`, `u32` or `u64` is a native number below
-- 2 ^ 8, 2 ^ 16, 2 ^ 32 or 2 ^ 64, with the wrap-around written out. An `i32` is its bit pattern.
pub mod Bits
pub mod Masks
pub mod Bounds
use vmrp_rust.Prelude.{
  ℕ, ◌+◌, ◌-◌, ◌*◌, ◌/◌, ◌%◌, ◌^◌, ◌<◌, ◌≡◌, Bool, bit_and, ◌==◌, ◌!=◌, if◌then◌else◌,
}

abbrev pub u32_max : ℕ
u32_max = 0xffff_ffff

abbrev pub IsU8 : ℕ → Type 0
IsU8 n = n < 2 ^ 8

abbrev pub IsU16 : ℕ → Type 0
IsU16 n = n < 2 ^ 16

abbrev pub IsU32 : ℕ → Type 0
IsU32 n = n < 2 ^ 32

-- `wrapping_add`, `wrapping_sub` and `wrapping_mul` on u32.
abbrev pub add32 : ℕ → ℕ → ℕ
add32 a b = (a + b) % 2 ^ 32

abbrev pub sub32 : ℕ → ℕ → ℕ
sub32 a b = (a + (2 ^ 32 - b)) % 2 ^ 32

abbrev pub mul32 : ℕ → ℕ → ℕ
mul32 a b = a * b % 2 ^ 32

-- `!a` on u32.
abbrev pub not32 : ℕ → ℕ
not32 a = u32_max - a

-- `a >> k`, and `a << k` with the bits that leave a u32 dropped.
abbrev pub shr : ℕ → ℕ → ℕ
shr a k = a / 2 ^ k

abbrev pub shl32 : ℕ → ℕ → ℕ
shl32 a k = a * 2 ^ k % 2 ^ 32

-- `(a >> k) & (2^w - 1)`: the field of `w` bits at bit `k`.
abbrev pub field : ℕ → ℕ → ℕ → ℕ
field a k w = a / 2 ^ k % 2 ^ w

-- `((a >> k) & 1) != 0`.
abbrev pub bit : ℕ → ℕ → Bool
bit a k = a / 2 ^ k % 2 != 0

-- `a as i32 >> k` for `k < 32`, on bit patterns: the sign bit is copied in from the left.
abbrev pub asr32 : ℕ → ℕ → ℕ
asr32 a k = if bit a 31 then a / 2 ^ k + (2 ^ 32 - 2 ^ (32 - k)) else a / 2 ^ k

-- `a.rotate_right(k)` on u32.
abbrev pub rotate_right : ℕ → ℕ → ℕ
rotate_right a k = let r = k % 32 in a / 2 ^ r + a % 2 ^ r * 2 ^ (32 - r)

-- `a as i32 as i64`, on bit patterns.
abbrev pub i64_of_i32 : ℕ → ℕ
i64_of_i32 a = if bit a 31 then a + (2 ^ 64 - 2 ^ 32) else a

-- `a as i8 as i32` and `a as i16 as i32`, on bit patterns.
abbrev pub i32_of_i8 : ℕ → ℕ
i32_of_i8 a = if bit a 7 then a + (2 ^ 32 - 2 ^ 8) else a

abbrev pub i32_of_i16 : ℕ → ℕ
i32_of_i16 a = if bit a 15 then a + (2 ^ 32 - 2 ^ 16) else a

-- `((a as i64) + k + (offset as i64)) as u32`, for an `a` of u32 and an `offset` of i32.
abbrev pub offset32 : ℕ → ℕ → ℕ → ℕ
offset32 a k offset = (a + k + i64_of_i32 offset) % 2 ^ 64 % 2 ^ 32
