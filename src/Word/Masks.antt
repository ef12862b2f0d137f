-- ===== src/Word/Masks.antt =====
-- Single-bit masks and runs of ones, at any bit: what `&`, `|` and `& !` do with them.
use native.Mathlib.Nat.{
  div-eq_of_lt-le, div-lt_iff_lt-mul, div_self, mod-eq_of_lt, mod_self, mul-add-mod_self_right,
  one-le-pow, pow-succ',
}
use vmrp_rust.Prelude.{
  ℕ, suc, ◌+◌, ◌-◌, ◌*◌, ◌/◌, ◌%◌, ◌^◌, ◌<◌, bit_and, bit_or, ◌≡◌, refl, ap, ◌∙◌, arith,
}
use vmrp_rust.Word.{not32, IsU32}
use vmrp_rust.Word.Bits.{
  bit_and_split, bit_or_split, bit_or_step, bit_and-ones, bit_and-zero, bit_or-zero,
}

pow_pos : (k : ℕ) → 0 < 2 ^ k
pow_pos k = one-le-pow k 2 (omega arith)

-- `a & (1 << k)`.
pub bit_and-pow : (k a : ℕ) → bit_and a (2 ^ k) ≡ a / 2 ^ k % 2 * 2 ^ k
bit_and-pow k a = omega (
  arith,
  bit_and_split k a (2 ^ k),
  ap (λ (t : ℕ). bit_and (a / 2 ^ k) t * 2 ^ k) (div_self (pow_pos k)),
  ap (λ (t : ℕ). bit_and (a % 2 ^ k) t) (mod_self (2 ^ k)),
  bit_and-zero (a % 2 ^ k),
  ap (λ (t : ℕ). t * 2 ^ k) (bit_and-ones 1 (a / 2 ^ k)),
)

bit_or-one : (a : ℕ) → bit_or a 1 ≡ a / 2 * 2 + 1
bit_or-one a = omega (arith, bit_or_step a 1, bit_or-zero (a / 2))

-- `a | (1 << k)`: the digits above, a one, and the digits below.
pub bit_or-pow : (k a : ℕ) → bit_or a (2 ^ k) ≡ (a / 2 ^ k / 2 * 2 + 1) * 2 ^ k + a % 2 ^ k
bit_or-pow k a = omega (
  arith,
  bit_or_split k a (2 ^ k),
  ap (λ (t : ℕ). bit_or (a / 2 ^ k) t * 2 ^ k) (div_self (pow_pos k)),
  ap (λ (t : ℕ). bit_or (a % 2 ^ k) t) (mod_self (2 ^ k)),
  bit_or-zero (a % 2 ^ k),
  ap (λ (t : ℕ). t * 2 ^ k) (bit_or-one (a / 2 ^ k)),
)

-- `a & m` for a mask of `j` ones, a zero at bit `k`, and `k` ones.
module _ (k j m a : ℕ) (mask : m ≡ (2 ^ j - 1) * 2 ^ suc k + (2 ^ k - 1))
    (fits : a < 2 ^ j * 2 ^ suc k) where
  mask_high : m / 2 ^ suc k ≡ 2 ^ j - 1
  mask_high =
      div-eq_of_lt-le (2 ^ suc k) (omega arith) (omega (arith, pow-succ' 2 k, pow_pos k, pow_pos j))

  mask_low : m % 2 ^ suc k ≡ 2 ^ k - 1
  mask_low =
      ap (λ (t : ℕ). t % 2 ^ suc k) mask
      ∙ mul-add-mod_self_right (2 ^ j - 1) (2 ^ suc k) (2 ^ k - 1)
      ∙ mod-eq_of_lt (omega (arith, pow-succ' 2 k, pow_pos k))

  clear_at : bit_and a m ≡ a / 2 ^ suc k * 2 ^ suc k + a % 2 ^ suc k % 2 ^ k
  clear_at = omega (
    arith,
    bit_and_split (suc k) a m,
    ap (λ (t : ℕ). bit_and (a / 2 ^ suc k) t * 2 ^ suc k) mask_high,
    ap (λ (t : ℕ). bit_and (a % 2 ^ suc k) t) mask_low,
    ap (λ (t : ℕ). t * 2 ^ suc k) (bit_and-ones j (a / 2 ^ suc k)),
    ap (λ (t : ℕ). t * 2 ^ suc k)
        (mod-eq_of_lt ((div-lt_iff_lt-mul {k = 2 ^ suc k} {x = a} (pow_pos (suc k))).1 fits)),
    bit_and-ones k (a % 2 ^ suc k),
  )

-- `a & !(1 << k)` at the bits that the program clears.
module _ (a : ℕ) (h : IsU32 a) where
  pub clear_0 : bit_and a (not32 1) ≡ a / 2 * 2
  clear_0 = omega (arith, clear_at 0 31 (not32 1) a refl (omega arith))

  pub clear_5 : bit_and a (not32 (2 ^ 5)) ≡ a / 64 * 64 + a % 32
  clear_5 = omega (arith, clear_at 5 26 (not32 (2 ^ 5)) a refl (omega arith))

  pub clear_28 : bit_and a (not32 (2 ^ 28)) ≡ a / 2 ^ 29 * 2 ^ 29 + a % 2 ^ 28
  clear_28 = omega (arith, clear_at 28 3 (not32 (2 ^ 28)) a refl (omega arith))

  pub clear_29 : bit_and a (not32 (2 ^ 29)) ≡ a / 2 ^ 30 * 2 ^ 30 + a % 2 ^ 29
  clear_29 = omega (arith, clear_at 29 2 (not32 (2 ^ 29)) a refl (omega arith))

  pub clear_30 : bit_and a (not32 (2 ^ 30)) ≡ a / 2 ^ 31 * 2 ^ 31 + a % 2 ^ 30
  clear_30 = omega (arith, clear_at 30 1 (not32 (2 ^ 30)) a refl (omega arith))

  pub clear_31 : bit_and a (not32 (2 ^ 31)) ≡ a % 2 ^ 31
  clear_31 = omega (arith, clear_at 31 0 (not32 (2 ^ 31)) a refl (omega arith))

  -- `a & !3`.
  pub clear_word_offset : bit_and a (not32 3) ≡ a / 4 * 4
  clear_word_offset =
      omega (arith, bit_and_split 2 a (not32 3), bit_and-ones 30 (a / 4), bit_and-zero (a % 4))
