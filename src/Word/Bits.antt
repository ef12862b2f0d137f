-- ===== src/Word/Bits.antt =====
-- The bit operations at variables: one equation for the lowest digit, and masks as arithmetic.
use Prim.Native.Nat.{digits, bitwise, differ, bit_and-bitwise, bit_or-bitwise, bit_xor-bitwise}
use mathlib.Core.Path.{ap₂}
use native.Mathlib.Nat.{
  div-add-mod, div-div-eq-div-mul, div-eq_of_lt-le, div-one, mod-lt, mod-one, one-le-pow, pow-succ',
}
use vmrp_rust.Prelude.{
  ℕ, zero, suc, ◌+◌, ◌-◌, ◌*◌, ◌/◌, ◌%◌, ◌^◌, ◌≤◌, ◌<◌, min, max, bit_and, bit_or, bit_xor, ◌≡◌,
  refl, sym, ap, ◌∙◌, ◌⊎◌, inl, inr, arith,
}

-- `digits` counts down a fuel: one more changes nothing when the number fits it.
module _ (rest : ℕ → ℕ) (digit : ℕ → ℕ → ℕ) where
  one_more :
      (fuel x y : ℕ) → x ≤ fuel → digits rest digit (suc fuel) x y ≡ digits rest digit fuel x y
  one_more zero zero y h = refl
  one_more (suc fuel) zero y h = refl
  one_more (suc fuel) (suc x) y h = rw (one_more fuel (suc x / 2) (y / 2) (omega arith)) refl
  one_more zero (suc x) y h = absurd (omega arith)

  suc-add : (extra fuel : ℕ) → suc extra + fuel ≡ suc (extra + fuel)
  suc-add extra fuel = omega arith

  more :
      (extra fuel x y : ℕ)
      → x ≤ fuel
      → digits rest digit (extra + fuel) x y ≡ digits rest digit fuel x y
  more zero fuel x y h = ap (λ n. digits rest digit n x y) (omega arith)
  more (suc extra) fuel x y h =
      ap (λ n. digits rest digit n x y) (suc-add extra fuel)
      ∙ one_more (extra + fuel) x y (omega arith)
      ∙ more extra fuel x y h

  halve :
      (x y : ℕ) → digits rest digit x (suc x / 2) (y / 2) ≡ bitwise rest digit (suc x / 2) (y / 2)
  halve x y =
      ap (λ n. digits rest digit n (suc x / 2) (y / 2)) (omega arith)
      ∙ more (x - suc x / 2) (suc x / 2) (suc x / 2) (y / 2) (omega arith)

  lowest_digit :
      (x y : ℕ)
      → bitwise rest digit (suc x) y
        ≡ bitwise rest digit (suc x / 2) (y / 2) * 2 + digit (suc x % 2) (y % 2)
  lowest_digit x y = omega (arith, halve x y)

parity : (y : ℕ) → y ≡ y / 2 * 2 + differ 0 (y % 2)
parity y = elim (omega_cases y) [ inl e ↦ rw e (omega arith) | inr e ↦ rw e (omega arith) ]
  where
    omega_cases : (n : ℕ) → (n % 2 ≡ 0) ⊎ (n % 2 ≡ 1)
    omega_cases n = omega arith

pub bit_xor_step : (x y : ℕ) → bit_xor x y ≡ bit_xor (x / 2) (y / 2) * 2 + differ (x % 2) (y % 2)
bit_xor_step zero y = simp bit_xor-bitwise (parity y)
bit_xor_step (suc x) y = simp bit_xor-bitwise (lowest_digit (λ n. n) differ x y)

pub bit_and_step : (x y : ℕ) → bit_and x y ≡ bit_and (x / 2) (y / 2) * 2 + min (x % 2) (y % 2)
bit_and_step zero y = simp bit_and-bitwise (omega arith)
bit_and_step (suc x) y = simp bit_and-bitwise (lowest_digit (λ n. 0) min x y)

pub bit_or_step : (x y : ℕ) → bit_or x y ≡ bit_or (x / 2) (y / 2) * 2 + max (x % 2) (y % 2)
bit_or_step zero y = simp bit_or-bitwise (omega arith)
bit_or_step (suc x) y = simp bit_or-bitwise (lowest_digit (λ n. n) max x y)

div-pow-suc : (a k : ℕ) → a / 2 / 2 ^ k ≡ a / 2 ^ suc k
div-pow-suc a k = rw (div-div-eq-div-mul, ← pow-succ')

mod-pow-suc : (a k : ℕ) → a % 2 ^ suc k ≡ a / 2 % 2 ^ k * 2 + a % 2
mod-pow-suc a k = omega (
  arith,
  div-add-mod a (2 ^ suc k),
  div-add-mod (a / 2) (2 ^ k),
  ap (λ (t : ℕ). t * (a / 2 ^ suc k)) (pow-succ' 2 k),
  ap (λ (t : ℕ). 2 ^ k * t) (div-pow-suc a k),
)

-- What holds of any operation that works digit by digit.
module _ (op m : ℕ → ℕ → ℕ) (step : (a b : ℕ) → op a b ≡ op (a / 2) (b / 2) * 2 + m (a % 2) (b % 2))
    (op_zero : op 0 0 ≡ 0) where
  -- The operation works on the digits above and below bit `k` apart.
  split_at : (k a b : ℕ) → op a b ≡ op (a / 2 ^ k) (b / 2 ^ k) * 2 ^ k + op (a % 2 ^ k) (b % 2 ^ k)
  split_at zero a b =
      omega (arith, ap₂ op (div-one a) (div-one b), ap₂ op (mod-one a) (mod-one b), op_zero)
  split_at (suc k) a b = omega (
    arith,
    step a b,
    split_at k (a / 2) (b / 2),
    low_step,
    ap (λ (t : ℕ). op (a / 2 / 2 ^ k) (b / 2 / 2 ^ k) * t) (pow-succ' 2 k),
    ap₂ op (div-pow-suc a k) (div-pow-suc b k),
    ap (λ (t : ℕ). t * 2 ^ suc k) (ap₂ op (div-pow-suc a k) (div-pow-suc b k)),
  )
    where
      half : (x : ℕ) → x % 2 ^ suc k / 2 ≡ x / 2 % 2 ^ k
      half x = omega (arith, mod-pow-suc x k)

      last : (x : ℕ) → x % 2 ^ suc k % 2 ≡ x % 2
      last x = omega (arith, mod-pow-suc x k)

      low_step :
          op (a % 2 ^ suc k) (b % 2 ^ suc k)
          ≡ op (a / 2 % 2 ^ k) (b / 2 % 2 ^ k) * 2 + m (a % 2) (b % 2)
      low_step =
          step (a % 2 ^ suc k) (b % 2 ^ suc k)
          ∙ ap₂ ◌+◌ (ap (λ (t : ℕ). t * 2) (ap₂ op (half a) (half b))) (ap₂ m (last a) (last b))

  op-lt :
      ((x y : ℕ) → x < 2 → y < 2 → m x y < 2) → (k a b : ℕ) → a < 2 ^ k → b < 2 ^ k → op a b < 2 ^ k
  op-lt small zero zero zero p q = omega (arith, op_zero)
  op-lt small zero (suc a) b p q = absurd (omega arith)
  op-lt small zero zero (suc b) p q = absurd (omega arith)
  op-lt small (suc k) a b p q = omega (
    arith,
    step a b,
    small (a % 2) (b % 2) (omega arith) (omega arith),
    pow-succ' 2 k,
    op-lt small k (a / 2) (b / 2) (omega (arith, pow-succ' 2 k)) (omega (arith, pow-succ' 2 k)),
  )

  -- Shifting right commutes with the operation.
  op-div :
      ((x y : ℕ) → x < 2 → y < 2 → m x y < 2)
      → (k a b : ℕ) → op a b / 2 ^ k ≡ op (a / 2 ^ k) (b / 2 ^ k)
  op-div small k a b = div-eq_of_lt-le (2 ^ k) (omega (arith, split_at k a b)) below
    where
      positive : 0 < 2 ^ k
      positive = one-le-pow k 2 (omega arith)

      below : op a b < (op (a / 2 ^ k) (b / 2 ^ k) + 1) * 2 ^ k
      below = omega (
        arith,
        split_at k a b,
        op-lt small k (a % 2 ^ k) (b % 2 ^ k) (mod-lt a positive) (mod-lt b positive),
      )

  -- With nothing on the right, the operation is what it is on digits.
  right_empty : ((x : ℕ) → x < 2 → m x 0 ≡ 0) → (k a : ℕ) → a < 2 ^ k → op a 0 ≡ 0
  right_empty drops zero zero h = op_zero
  right_empty drops zero (suc a) h = absurd (omega arith)
  right_empty drops (suc k) a h = omega (
    arith,
    step a 0,
    drops (a % 2) (omega arith),
    right_empty drops k (a / 2) (omega (arith, pow-succ' 2 k)),
  )

  right_unit : ((x : ℕ) → x < 2 → m x 0 ≡ x) → (k a : ℕ) → a < 2 ^ k → op a 0 ≡ a
  right_unit keeps zero zero h = op_zero
  right_unit keeps zero (suc a) h = absurd (omega arith)
  right_unit keeps (suc k) a h = omega (
    arith,
    step a 0,
    keeps (a % 2) (omega arith),
    right_unit keeps k (a / 2) (omega (arith, pow-succ' 2 k)),
  )

below_pow : (a : ℕ) → a < 2 ^ a
below_pow zero = omega arith
below_pow (suc a) = omega (arith, below_pow a, pow-succ' 2 a)

small_min : (x y : ℕ) → x < 2 → y < 2 → min x y < 2
small_min x y p q = omega arith

small_max : (x y : ℕ) → x < 2 → y < 2 → max x y < 2
small_max x y p q = omega arith

small_differ : (x y : ℕ) → x < 2 → y < 2 → differ x y < 2
small_differ zero zero p q = omega arith
small_differ zero (suc zero) p q = omega arith
small_differ zero (suc (suc y)) p q = omega arith
small_differ (suc zero) zero p q = omega arith
small_differ (suc zero) (suc zero) p q = omega arith
small_differ (suc zero) (suc (suc y)) p q = omega arith
small_differ (suc (suc x)) y p q = absurd (omega arith)

pub bit_and_split :
    (k a b : ℕ)
    → bit_and a b ≡ bit_and (a / 2 ^ k) (b / 2 ^ k) * 2 ^ k + bit_and (a % 2 ^ k) (b % 2 ^ k)
bit_and_split = split_at bit_and min bit_and_step refl

pub bit_or_split :
    (k a b : ℕ)
    → bit_or a b ≡ bit_or (a / 2 ^ k) (b / 2 ^ k) * 2 ^ k + bit_or (a % 2 ^ k) (b % 2 ^ k)
bit_or_split = split_at bit_or max bit_or_step refl

pub bit_xor_split :
    (k a b : ℕ)
    → bit_xor a b ≡ bit_xor (a / 2 ^ k) (b / 2 ^ k) * 2 ^ k + bit_xor (a % 2 ^ k) (b % 2 ^ k)
bit_xor_split = split_at bit_xor differ bit_xor_step refl

pub bit_and-div : (k a b : ℕ) → bit_and a b / 2 ^ k ≡ bit_and (a / 2 ^ k) (b / 2 ^ k)
bit_and-div = op-div bit_and min bit_and_step refl small_min

pub bit_or-div : (k a b : ℕ) → bit_or a b / 2 ^ k ≡ bit_or (a / 2 ^ k) (b / 2 ^ k)
bit_or-div = op-div bit_or max bit_or_step refl small_max

pub bit_xor-div : (k a b : ℕ) → bit_xor a b / 2 ^ k ≡ bit_xor (a / 2 ^ k) (b / 2 ^ k)
bit_xor-div = op-div bit_xor differ bit_xor_step refl small_differ

pub bit_and-lt : (k a b : ℕ) → a < 2 ^ k → b < 2 ^ k → bit_and a b < 2 ^ k
bit_and-lt = op-lt bit_and min bit_and_step refl small_min

pub bit_or-lt : (k a b : ℕ) → a < 2 ^ k → b < 2 ^ k → bit_or a b < 2 ^ k
bit_or-lt = op-lt bit_or max bit_or_step refl small_max

pub bit_xor-lt : (k a b : ℕ) → a < 2 ^ k → b < 2 ^ k → bit_xor a b < 2 ^ k
bit_xor-lt = op-lt bit_xor differ bit_xor_step refl small_differ

pub bit_and-zero : (a : ℕ) → bit_and a 0 ≡ 0
bit_and-zero a = right_empty bit_and min bit_and_step refl (λ x h. omega arith) a a (below_pow a)

-- Masks of `k` ones, and no bits.
pub bit_and-ones : (k a : ℕ) → bit_and a (2 ^ k - 1) ≡ a % 2 ^ k
bit_and-ones zero a = bit_and-zero a ∙ sym (mod-one a)
bit_and-ones (suc k) a = omega (
  arith,
  bit_and_step a (2 ^ suc k - 1),
  ap (λ (t : ℕ). bit_and (a / 2) t) half,
  bit_and-ones k (a / 2),
  mod-pow-suc a k,
  pow-succ' 2 k,
  one-le-pow k 2 (omega arith),
)
  where
    half : (2 ^ suc k - 1) / 2 ≡ 2 ^ k - 1
    half = omega (arith, pow-succ' 2 k, one-le-pow k 2 (omega arith))

pub bit_or-zero : (a : ℕ) → bit_or a 0 ≡ a
bit_or-zero a = right_unit bit_or max bit_or_step refl (λ x h. omega arith) a a (below_pow a)

pub zero-bit_and : (b : ℕ) → bit_and 0 b ≡ 0
zero-bit_and b = simp bit_and-bitwise

pub zero-bit_or : (b : ℕ) → bit_or 0 b ≡ b
zero-bit_or b = simp bit_or-bitwise
