-- ===== src/Cpu/Execute/Shifts.antt =====
-- The barrel shifter of crates/vmrp-cpu/src/execute.rs (`apply_register_shift`) against arithmetic:
-- one formula for the result and one for the carry, over all amounts.
use native.Mathlib.Nat.{mul-div-mul_right, pow-le-pow_right, div-eq_of_lt}
use vmrp_rust.Prelude.{
  ℕ, ◌-◌, ◌*◌, ◌/◌, ◌%◌, ◌^◌, ◌≤◌, ◌<◌, ◌≡◌, refl, ap, ◌∙◌, true, false, ◌==◌, ◌!=◌, ltb, some,
  none, Bool, if◌then◌else◌, arith,
}
use vmrp_rust.Word.{IsU32}
use vmrp_rust.Word.Bounds.{pow_add, pow_split, pow_pos}
use vmrp_rust.Cpu.Decode.{RegisterShift}
use vmrp_rust.Cpu.Regs
use vmrp_rust.Cpu.Machine.{Machine, ok, reg}
use vmrp_rust.Cpu.Execute.Common.{Shifted, lsl_by, lsr_by, shift_amount, apply_register_shift}

-- A shift by more than 32 leaves bits 0 to 32 empty.
far : (v k : ℕ) → 33 ≤ k → v * 2 ^ k ≡ v * 2 ^ (k - 33) * 2 ^ 33
far v k h = ap (λ e. v * 2 ^ e) (omega arith) ∙ ap (λ t. v * t) (pow_add (k - 33) 33) ∙ omega arith

far_pow : (k : ℕ) → 32 ≤ k → 2 ^ 32 ≤ 2 ^ k
far_pow k h = pow-le-pow_right {n = 2} (omega arith) {i = 32} {j = k} h

near : (v n : ℕ) → n < 32 → v * 2 ^ n / 2 ^ 32 ≡ v / 2 ^ (32 - n)
near v n h =
    ap (λ t. v * 2 ^ n / t) (omega (arith, pow_split n h))
    ∙ mul-div-mul_right {m = 2 ^ n} v (2 ^ (32 - n)) (pow_pos n)

-- An amount is below 32, 32 or above.
data Amount (n : ℕ) : Type 0 where
  below : n < 32 → Amount n
  exact : n ≡ 32 → Amount n
  above : 33 ≤ n → Amount n

amount : (n : ℕ) → Amount n
amount n =
    elim (ltb n 32) as (λ b. ltb n 32 ≡ b → Amount n) [
      | true ↦ λ p. below (ground arith)
      | false ↦ λ p.
          elim (n == 32) as (λ b. (n == 32) ≡ b → Amount n) [
            | true ↦ λ q. exact (ground arith)
            | false ↦ λ q. above (ground arith)
          ]
            refl
    ]
      refl

module _ (v n : ℕ) (h : IsU32 v) where
  at_32 : n ≡ 32 → v * 2 ^ n ≡ v * 2 ^ 32
  at_32 p = ap (λ e. v * 2 ^ e) p

  past : 32 ≤ n → v / 2 ^ n ≡ 0
  past p = div-eq_of_lt (omega (arith, far_pow n p))

  lsl_result_at : Amount n → (lsl_by v n).0 ≡ v * 2 ^ n % 2 ^ 32
  unfolding lsl_by
  lsl_result_at (below p) = ground arith
  lsl_result_at (exact p) = ground (arith, at_32 p)
  lsl_result_at (above p) = ground (arith, far v n p)

  -- A shift to the left by the amount in a register is the multiplication by a power of 2, modulo
  -- 2 ^ 32, for every amount.
  pub lsl_by-result : (lsl_by v n).0 ≡ v * 2 ^ n % 2 ^ 32
  lsl_by-result = lsl_result_at (amount n)

  lsl_carry_at : 0 < n → Amount n → (lsl_by v n).1 ≡ some (v * 2 ^ n / 2 ^ 32 % 2 != 0)
  unfolding lsl_by
  lsl_carry_at q (below p) = ground (arith, near v n p)
  lsl_carry_at q (exact p) = ground (arith, at_32 p)
  lsl_carry_at q (above p) = ground (arith, far v n p)

  -- The carry of a shift to the left by a positive amount is the bit of weight 2 ^ 32 of the
  -- product, for every amount.
  pub lsl_by-carry : 0 < n → (lsl_by v n).1 ≡ some (v * 2 ^ n / 2 ^ 32 % 2 != 0)
  lsl_by-carry q = lsl_carry_at q (amount n)

  -- Both together.
  lsl_by_lem : 0 < n → lsl_by v n ≡ (v * 2 ^ n % 2 ^ 32, some (v * 2 ^ n / 2 ^ 32 % 2 != 0))
  lsl_by_lem q = λ i. (lsl_by-result i, lsl_by-carry q i)

  lsr_result_at : Amount n → (lsr_by v n).0 ≡ v / 2 ^ n
  unfolding lsr_by
  lsr_result_at (below p) = ground arith
  lsr_result_at (exact p) = ground (arith, past (omega arith))
  lsr_result_at (above p) = ground (arith, past (omega arith))

  -- A logical shift to the right is the division by a power of 2, for every amount.
  pub lsr_by-result : (lsr_by v n).0 ≡ v / 2 ^ n
  lsr_by-result = lsr_result_at (amount n)

last_bit : (v n : ℕ) → IsU32 v → 33 ≤ n → v / 2 ^ (n - 1) ≡ 0
last_bit v n h p = past v (n - 1) h (omega arith)

at_31 : (v n : ℕ) → n ≡ 32 → v / 2 ^ (n - 1) ≡ v / 2 ^ 31
at_31 v n p = ap (λ e. v / 2 ^ (e - 1)) p

lsr_carry_at :
    (v n : ℕ) → IsU32 v → 0 < n → Amount n → (lsr_by v n).1 ≡ some (v / 2 ^ (n - 1) % 2 != 0)
unfolding lsr_by
lsr_carry_at v n h q (below p) = ground arith
lsr_carry_at v n h q (exact p) = ground (arith, at_31 v n p)
lsr_carry_at v n h q (above p) = ground (arith, last_bit v n h p)

-- The carry of a logical shift to the right by a positive amount is the last bit that leaves the
-- word, for every amount.
pub lsr_by-carry : (v n : ℕ) → IsU32 v → 0 < n → (lsr_by v n).1 ≡ some (v / 2 ^ (n - 1) % 2 != 0)
lsr_by-carry v n h q = lsr_carry_at v n h q (amount n)

-- Both together.
lsr_by_lem : (v n : ℕ) → IsU32 v → 0 < n → lsr_by v n ≡ (v / 2 ^ n, some (v / 2 ^ (n - 1) % 2 != 0))
lsr_by_lem v n h q = λ i. (lsr_by-result v n h i, lsr_by-carry v n h q i)

-- A shift by no amount leaves the word, and no carry.
abbrev pub shifted : ℕ → ℕ → ℕ → Bool → Shifted
shifted value amount word carry = if amount == 0 then (value, none) else (word, some carry)

module _ (v n : ℕ) (h : IsU32 v) where
  lsl_by-shifted : lsl_by v n ≡ shifted v n (v * 2 ^ n % 2 ^ 32) (v * 2 ^ n / 2 ^ 32 % 2 != 0)
  unfolding lsl_by
  lsl_by-shifted =
      elim (n == 0)
          as (λ t.
            (n == 0) ≡ t
            → lsl_by v n ≡ (
                if t
                then (v, none)
                else (v * 2 ^ n % 2 ^ 32, some (v * 2 ^ n / 2 ^ 32 % 2 != 0)))) [
                  | true ↦ λ p. rw (p) refl
                  | false ↦ λ p. lsl_by_lem v n h (ground arith)
                ]
        refl

  lsr_by-shifted : lsr_by v n ≡ shifted v n (v / 2 ^ n) (v / 2 ^ (n - 1) % 2 != 0)
  unfolding lsr_by
  lsr_by-shifted =
      elim (n == 0)
          as (λ t.
            (n == 0) ≡ t
            → lsr_by v n
              ≡ (if t then (v, none) else (v / 2 ^ n, some (v / 2 ^ (n - 1) % 2 != 0)))) [
                | true ↦ λ p. rw (p) refl
                | false ↦ λ p. lsr_by_lem v n h (ground arith)
              ]
        refl

module _ {M : Type 0} (value rs : ℕ) (carry_in : Bool) (s : Machine M) (h : IsU32 value)
    (named : rs < 16) where
  -- The low byte of the register.
  abbrev pub amount_in : ℕ
  amount_in = s.regs.regs rs % 256

  within : ltb rs 16 ≡ true
  within = ground arith

  -- A shift to the left by a register with any value, of a word of 32 bits: with the low byte n of the
  -- register, the word is left and there is no carry when n is 0, and otherwise the result is the
  -- product with 2 ^ n modulo 2 ^ 32 and the carry the bit of weight 2 ^ 32 of the product. The machine
  -- does not change.
  pub apply_register_shift-lsl_register :
      apply_register_shift value (RegisterShift.lsl_register rs) carry_in s ≡ (
        ok (
            shifted value amount_in
              (value * 2 ^ amount_in % 2 ^ 32)
              (value * 2 ^ amount_in / 2 ^ 32 % 2 != 0)),
        s,
      )
  unfolding apply_register_shift shift_amount reg Regs.reg
  apply_register_shift-lsl_register =
      rw (within) (ap (λ r. (ok r, s)) (lsl_by-shifted value amount_in h))

  -- A logical shift to the right by a register with any value, of a word of 32 bits: with the low byte n
  -- of the register, the word is left and there is no carry when n is 0, and otherwise the result is the
  -- quotient by 2 ^ n and the carry the last bit that leaves the word. The machine does not change.
  pub apply_register_shift-lsr_register :
      apply_register_shift value (RegisterShift.lsr_register rs) carry_in s ≡ (
        ok (shifted value amount_in (value / 2 ^ amount_in) (value / 2 ^ (amount_in - 1) % 2 != 0)),
        s,
      )
  unfolding apply_register_shift shift_amount reg Regs.reg
  apply_register_shift-lsr_register =
      rw (within) (ap (λ r. (ok r, s)) (lsr_by-shifted value amount_in h))
