-- ===== src/Word/Bounds.antt =====
-- Bounds of the word operations: every result is again a u32.
use native.Mathlib.Nat.{
  pow-succ', div-le_self, pow-le-pow_right, div-lt_iff_lt-mul, mod-lt, one-le-pow,
}
use vmrp_rust.Prelude.{
  ℕ, zero, suc, ◌+◌, ◌-◌, ◌*◌, ◌/◌, ◌%◌, ◌^◌, ◌≤◌, ◌<◌, bit_and, bit_or, bit_xor, ◌≡◌, arith, sym,
  ap, ◌∙◌,
}
use vmrp_rust.Word.{IsU32, IsU8, IsU16, shr, asr32, rotate_right, i32_of_i8, i32_of_i16}
use vmrp_rust.Word.Bits.{bit_and-lt, bit_or-lt, bit_xor-lt}

suc-add : (j k : ℕ) → suc j + k ≡ suc (j + k)
suc-add j k = omega arith

zero-add : (k : ℕ) → 0 + k ≡ k
zero-add k = omega arith

pub pow_add : (j k : ℕ) → 2 ^ (j + k) ≡ 2 ^ j * 2 ^ k
pow_add zero k = ap (λ e. 2 ^ e) (zero-add k) ∙ omega arith
pow_add (suc j) k =
    ap (λ e. 2 ^ e) (suc-add j k) ∙ grind (arith, pow-succ' 2 j, pow-succ' 2 (j + k), pow_add j k)

-- The two parts of a word at bit `k`.
pub pow_split : (k : ℕ) → k < 32 → 2 ^ k * 2 ^ (32 - k) ≡ 2 ^ 32
pow_split k h = sym (pow_add k (32 - k)) ∙ ap (λ e. 2 ^ e) whole
  where
    whole : k + (32 - k) ≡ 32
    whole = omega arith

pub pow_pos : (k : ℕ) → 0 < 2 ^ k
pow_pos k = one-le-pow k 2 (omega arith)

pow_le : (k : ℕ) → 2 ^ (32 - k) ≤ 2 ^ 32
pow_le k = pow-le-pow_right {n = 2} (omega arith) {i = 32 - k} {j = 32} (omega arith)

module _ (x : ℕ) (h : IsU32 x) where
  pub high_part : (k : ℕ) → k < 32 → x / 2 ^ k < 2 ^ (32 - k)
  high_part k hk =
      (div-lt_iff_lt-mul {k = 2 ^ k} {x = x} (pow_pos k)).1 (omega (arith, pow_split k hk))

  rotate_part : (r : ℕ) → r < 32 → x / 2 ^ r + x % 2 ^ r * 2 ^ (32 - r) < 2 ^ 32
  rotate_part r hr =
      grind (arith, pow_split r hr, high_part r hr, mod-lt x (pow_pos r), pow_pos (32 - r))

  pub rotate_right-IsU32 : (k : ℕ) → IsU32 (rotate_right x k)
  rotate_right-IsU32 k = rotate_part (k % 32) (omega arith)

  pub shr-IsU32 : (k : ℕ) → IsU32 (shr x k)
  shr-IsU32 k = omega (arith, div-le_self x (2 ^ k))

  pub asr32-IsU32 : (k : ℕ) → k < 32 → IsU32 (asr32 x k)
  asr32-IsU32 k hk = ground (arith, high_part k hk, pow_split k hk, pow_le k)

pub i32_of_i8-IsU32 : (a : ℕ) → IsU8 a → IsU32 (i32_of_i8 a)
i32_of_i8-IsU32 a h = ground arith

pub i32_of_i16-IsU32 : (a : ℕ) → IsU16 a → IsU32 (i32_of_i16 a)
i32_of_i16-IsU32 a h = ground arith

pub bit_and-IsU32 : (a b : ℕ) → IsU32 a → IsU32 b → IsU32 (bit_and a b)
bit_and-IsU32 = bit_and-lt 32

pub bit_or-IsU32 : (a b : ℕ) → IsU32 a → IsU32 b → IsU32 (bit_or a b)
bit_or-IsU32 = bit_or-lt 32

pub bit_xor-IsU32 : (a b : ℕ) → IsU32 a → IsU32 b → IsU32 (bit_xor a b)
bit_xor-IsU32 = bit_xor-lt 32
