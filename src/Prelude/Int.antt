-- ===== src/Prelude/Int.antt =====
-- Signed integers over the native numbers, under the library's names, and the reading of a u32
-- as an i32.
pub mod Sums
use Prim.Native.Nat.{ℕ, suc, ◌+◌, ◌-◌, ◌%◌, ◌^◌}
use mathlib.Core.Bool.{Bool}
use vmrp_rust.Prelude.{ltb, leb, ◌&&◌, if◌then◌else◌}

-- `negsuc n` is -(n + 1).
pub data ℤ : Type 0 where
  pos : ℕ → ℤ
  negsuc : ℕ → ℤ

abbrev pub pos_part : ℤ → ℕ
pos_part (pos n) = n
pos_part (negsuc n) = 0

abbrev pub neg_part : ℤ → ℕ
neg_part (pos n) = 0
neg_part (negsuc n) = suc n

abbrev pub sub_ℕ : ℕ → ℕ → ℤ
sub_ℕ a b = if leb b a then pos (a - b) else negsuc (b - a - 1)

infixl 65 ◌+ℤ◌ ◌-ℤ◌
abbrev pub ◌+ℤ◌ : ℤ → ℤ → ℤ
a +ℤ b = sub_ℕ (pos_part a + pos_part b) (neg_part a + neg_part b)

abbrev pub ◌-ℤ◌ : ℤ → ℤ → ℤ
a -ℤ b = sub_ℕ (pos_part a + neg_part b) (neg_part a + pos_part b)

abbrev pub ltb_ℤ : ℤ → ℤ → Bool
ltb_ℤ a b = ltb (pos_part a + neg_part b) (pos_part b + neg_part a)

abbrev pub leb_ℤ : ℤ → ℤ → Bool
leb_ℤ a b = leb (pos_part a + neg_part b) (pos_part b + neg_part a)

-- `a as i32`.
abbrev pub as_i32 : ℕ → ℤ
as_i32 a = if ltb a (2 ^ 31) then pos a else negsuc (2 ^ 32 - a - 1)

-- The integer fits an i32.
abbrev pub fits_i32 : ℤ → Bool
fits_i32 a = leb_ℤ (negsuc (2 ^ 31 - 1)) a && leb_ℤ a (pos (2 ^ 31 - 1))

abbrev pub min_ℤ : ℤ → ℤ → ℤ
min_ℤ a b = if leb_ℤ a b then a else b

abbrev pub max_ℤ : ℤ → ℤ → ℤ
max_ℤ a b = if leb_ℤ a b then b else a

-- A sum or a difference of two integers of i32, wrapped around once.
abbrev pub wrap_i32 : ℤ → ℤ
wrap_i32 a =
    if ltb_ℤ a (negsuc (2 ^ 31 - 1))
    then a +ℤ pos (2 ^ 32)
    else if leb_ℤ (pos (2 ^ 31)) a
    then a -ℤ pos (2 ^ 32)
    else a

-- `a + b` on i32, with the wrap-around.
abbrev pub add_i32 : ℤ → ℤ → ℤ
add_i32 a b = wrap_i32 (a +ℤ b)

-- `a.saturating_add(b)` on i32.
abbrev pub saturating_add_i32 : ℤ → ℤ → ℤ
saturating_add_i32 a b = max_ℤ (negsuc (2 ^ 31 - 1)) (min_ℤ (a +ℤ b) (pos (2 ^ 31 - 1)))

-- `a as u16`.
abbrev pub as_u16 : ℤ → ℕ
as_u16 (pos n) = n % 2 ^ 16
as_u16 (negsuc n) = 2 ^ 16 - 1 - n % 2 ^ 16
