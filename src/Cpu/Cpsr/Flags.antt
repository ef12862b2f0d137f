-- ===== src/Cpu/Cpsr/Flags.antt =====
-- The status register of crates/vmrp-cpu/src/regs.rs against a record of its five flags.
use native.Mathlib.Nat.{one-le-pow}
use vmrp_rust.Prelude.{
  ℕ, ◌+◌, ◌*◌, ◌/◌, ◌%◌, ◌^◌, ◌<◌, bit_and, Bool, true, false, ◌!=◌, ◌≡◌, ◌≢◌, ◌⊎◌, inl, inr, sym,
  ap, !=_iff, ◌∙◌, arith, if◌then◌else◌,
}
use vmrp_rust.Word.{IsU32, bit}
use vmrp_rust.Word.Bits.{bit_and-lt, bit_or-lt}
use vmrp_rust.Word.Masks.{bit_and-pow, bit_or-pow, clear_5, clear_28, clear_29, clear_30, clear_31}
use vmrp_rust.Cpu.Cpsr.{
  Cpsr, ExecutionMode, arm, thumb, execution_mode, set_execution_mode, zero_flag, negative, carry,
  overflow, set_zero, set_negative, set_carry, set_overflow,
}

pub record Flags : Type 0 where
  pub n : Bool
  pub z : Bool
  pub c : Bool
  pub v : Bool
  pub mode : ExecutionMode

abbrev pub flags : Cpsr → Flags
flags r = record {
  n = negative r;
  z = zero_flag r;
  c = carry r;
  v = overflow r;
  mode = execution_mode r;
}

abbrev mode_of : Bool → ExecutionMode
mode_of b = if b then thumb else arm

-- The flags as digits.
abbrev digits : ℕ → Flags
digits x = record {
  n = bit x 31;
  z = bit x 30;
  c = bit x 29;
  v = bit x 28;
  mode = mode_of (bit x 5);
}

Digit-cases : (x : ℕ) → (x % 2 ≡ 0) ⊎ (x % 2 ≡ 1)
Digit-cases x = omega arith

pub test_bit : (k x : ℕ) → (bit_and x (2 ^ k) != 0) ≡ bit x k
test_bit k x = elim (Digit-cases (x / 2 ^ k)) [
  | inl e ↦ ap (λ (t : ℕ). t != 0) (clear e ∙ sym e)
  | inr e ↦ (!=_iff _ 0).1 (set e) ∙ ap (λ (t : ℕ). t != 0) (sym e)
]
  where
    clear : x / 2 ^ k % 2 ≡ 0 → bit_and x (2 ^ k) ≡ 0
    clear e = omega (arith, bit_and-pow k x, ap (λ (t : ℕ). t * 2 ^ k) e)

    set : x / 2 ^ k % 2 ≡ 1 → bit_and x (2 ^ k) ≢ 0
    set e =
        omega (arith, bit_and-pow k x, ap (λ (t : ℕ). t * 2 ^ k) e, one-le-pow k 2 (omega arith))

pub flags-digits : (r : Cpsr) → flags r ≡ digits r.bits
unfolding zero_flag negative carry overflow execution_mode
flags-digits r = λ i. record {
  n = test_bit 31 r.bits i;
  z = test_bit 30 r.bits i;
  c = test_bit 29 r.bits i;
  v = test_bit 28 r.bits i;
  mode = mode_of (test_bit 5 r.bits i);
}

-- `y` is `x` with the digit at bit `k` replaced by `d`.
abbrev Replaced : ℕ → ℕ → ℕ → ℕ → Type 0
Replaced k d x y = y ≡ x / 2 ^ k / 2 * 2 ^ k * 2 + d * 2 ^ k + x % 2 ^ k

abbrev SameDigit : ℕ → ℕ → ℕ → Type 0
SameDigit k x y = y / 2 ^ k % 2 ≡ x / 2 ^ k % 2

spliced_5 :
    (d x y : ℕ)
    → d < 2
    → Replaced 5 d x y
    → SameDigit 31 x y
      × SameDigit 30 x y
      × SameDigit 29 x y
      × SameDigit 28 x y
      × (y / 2 ^ 5 % 2 ≡ d)
spliced_5 d x y h e = omega arith

spliced_28 :
    (d x y : ℕ)
    → d < 2
    → Replaced 28 d x y
    → SameDigit 31 x y
      × SameDigit 30 x y
      × SameDigit 29 x y
      × (y / 2 ^ 28 % 2 ≡ d)
      × SameDigit 5 x y
spliced_28 d x y h e = omega arith

spliced_29 :
    (d x y : ℕ)
    → d < 2
    → Replaced 29 d x y
    → SameDigit 31 x y
      × SameDigit 30 x y
      × (y / 2 ^ 29 % 2 ≡ d)
      × SameDigit 28 x y
      × SameDigit 5 x y
spliced_29 d x y h e = omega arith

spliced_30 :
    (d x y : ℕ)
    → d < 2
    → Replaced 30 d x y
    → SameDigit 31 x y
      × (y / 2 ^ 30 % 2 ≡ d)
      × SameDigit 29 x y
      × SameDigit 28 x y
      × SameDigit 5 x y
spliced_30 d x y h e = omega arith

spliced_31 :
    (d x y : ℕ)
    → d < 2
    → Replaced 31 d x y
    → (y / 2 ^ 31 % 2 ≡ d)
      × SameDigit 30 x y
      × SameDigit 29 x y
      × SameDigit 28 x y
      × SameDigit 5 x y
spliced_31 d x y h e = omega arith

digits_31 : (d x y : ℕ) → d < 2 → Replaced 31 d x y → digits y ≡ record (digits x) { n = d != 0 }
digits_31 d x y h e =
    let same = spliced_31 d x y h e in
    λ i. record {
      n = same.0 i != 0;
      z = same.1 i != 0;
      c = same.2 i != 0;
      v = same.3 i != 0;
      mode = mode_of (same.4 i != 0);
    }

digits_30 : (d x y : ℕ) → d < 2 → Replaced 30 d x y → digits y ≡ record (digits x) { z = d != 0 }
digits_30 d x y h e =
    let same = spliced_30 d x y h e in
    λ i. record {
      n = same.0 i != 0;
      z = same.1 i != 0;
      c = same.2 i != 0;
      v = same.3 i != 0;
      mode = mode_of (same.4 i != 0);
    }

digits_29 : (d x y : ℕ) → d < 2 → Replaced 29 d x y → digits y ≡ record (digits x) { c = d != 0 }
digits_29 d x y h e =
    let same = spliced_29 d x y h e in
    λ i. record {
      n = same.0 i != 0;
      z = same.1 i != 0;
      c = same.2 i != 0;
      v = same.3 i != 0;
      mode = mode_of (same.4 i != 0);
    }

digits_28 : (d x y : ℕ) → d < 2 → Replaced 28 d x y → digits y ≡ record (digits x) { v = d != 0 }
digits_28 d x y h e =
    let same = spliced_28 d x y h e in
    λ i. record {
      n = same.0 i != 0;
      z = same.1 i != 0;
      c = same.2 i != 0;
      v = same.3 i != 0;
      mode = mode_of (same.4 i != 0);
    }

digits_5 :
    (d x y : ℕ)
    → d < 2
    → Replaced 5 d x y
    → digits y ≡ record (digits x) { mode = mode_of (d != 0) }
digits_5 d x y h e =
    let same = spliced_5 d x y h e in
    λ i. record {
      n = same.0 i != 0;
      z = same.1 i != 0;
      c = same.2 i != 0;
      v = same.3 i != 0;
      mode = mode_of (same.4 i != 0);
    }

module _ (r : Cpsr) (h : IsU32 r.bits) where
  set_negative-digits :
      (b : Bool) → digits (set_negative r b).bits ≡ record (digits r.bits) { n = b }
  unfolding set_negative
  set_negative-digits true =
      digits_31 1 r.bits _ (omega arith) (omega (arith, bit_or-pow 31 r.bits))
  set_negative-digits false = digits_31 0 r.bits _ (omega arith) (omega (arith, clear_31 r.bits h))

  set_zero-digits : (b : Bool) → digits (set_zero r b).bits ≡ record (digits r.bits) { z = b }
  unfolding set_zero
  set_zero-digits true = digits_30 1 r.bits _ (omega arith) (omega (arith, bit_or-pow 30 r.bits))
  set_zero-digits false = digits_30 0 r.bits _ (omega arith) (omega (arith, clear_30 r.bits h))

  set_carry-digits : (b : Bool) → digits (set_carry r b).bits ≡ record (digits r.bits) { c = b }
  unfolding set_carry
  set_carry-digits true = digits_29 1 r.bits _ (omega arith) (omega (arith, bit_or-pow 29 r.bits))
  set_carry-digits false = digits_29 0 r.bits _ (omega arith) (omega (arith, clear_29 r.bits h))

  set_overflow-digits :
      (b : Bool) → digits (set_overflow r b).bits ≡ record (digits r.bits) { v = b }
  unfolding set_overflow
  set_overflow-digits true =
      digits_28 1 r.bits _ (omega arith) (omega (arith, bit_or-pow 28 r.bits))
  set_overflow-digits false = digits_28 0 r.bits _ (omega arith) (omega (arith, clear_28 r.bits h))

  set_execution_mode-digits :
      (m : ExecutionMode)
      → digits (set_execution_mode r m).bits ≡ record (digits r.bits) { mode = m }
  unfolding set_execution_mode
  set_execution_mode-digits arm =
      digits_5 0 r.bits _ (omega arith) (omega (arith, clear_5 r.bits h))
  set_execution_mode-digits thumb =
      digits_5 1 r.bits _ (omega arith) (omega (arith, bit_or-pow 5 r.bits))

  pub set_negative-flags : (b : Bool) → flags (set_negative r b) ≡ record (flags r) { n = b }
  set_negative-flags b =
      flags-digits (set_negative r b)
      ∙ set_negative-digits b
      ∙ ap (λ (f : Flags). record f { n = b }) (sym (flags-digits r))

  pub set_zero-flags : (b : Bool) → flags (set_zero r b) ≡ record (flags r) { z = b }
  set_zero-flags b =
      flags-digits (set_zero r b)
      ∙ set_zero-digits b
      ∙ ap (λ (f : Flags). record f { z = b }) (sym (flags-digits r))

  pub set_carry-flags : (b : Bool) → flags (set_carry r b) ≡ record (flags r) { c = b }
  set_carry-flags b =
      flags-digits (set_carry r b)
      ∙ set_carry-digits b
      ∙ ap (λ (f : Flags). record f { c = b }) (sym (flags-digits r))

  pub set_overflow-flags : (b : Bool) → flags (set_overflow r b) ≡ record (flags r) { v = b }
  set_overflow-flags b =
      flags-digits (set_overflow r b)
      ∙ set_overflow-digits b
      ∙ ap (λ (f : Flags). record f { v = b }) (sym (flags-digits r))

  -- Of a status word of 32 bits, setting the mode changes the mode and none of N, Z, C and V.
  pub set_execution_mode-flags :
      (m : ExecutionMode) → flags (set_execution_mode r m) ≡ record (flags r) { mode = m }
  set_execution_mode-flags m =
      flags-digits (set_execution_mode r m)
      ∙ set_execution_mode-digits m
      ∙ ap (λ (f : Flags). record f { mode = m }) (sym (flags-digits r))

  pub set_negative-IsU32 : (b : Bool) → IsU32 (set_negative r b).bits
  unfolding set_negative
  set_negative-IsU32 false = bit_and-lt 32 r.bits _ h (omega arith)
  set_negative-IsU32 true = bit_or-lt 32 r.bits _ h (omega arith)

  pub set_zero-IsU32 : (b : Bool) → IsU32 (set_zero r b).bits
  unfolding set_zero
  set_zero-IsU32 false = bit_and-lt 32 r.bits _ h (omega arith)
  set_zero-IsU32 true = bit_or-lt 32 r.bits _ h (omega arith)

  pub set_carry-IsU32 : (b : Bool) → IsU32 (set_carry r b).bits
  unfolding set_carry
  set_carry-IsU32 false = bit_and-lt 32 r.bits _ h (omega arith)
  set_carry-IsU32 true = bit_or-lt 32 r.bits _ h (omega arith)

  pub set_overflow-IsU32 : (b : Bool) → IsU32 (set_overflow r b).bits
  unfolding set_overflow
  set_overflow-IsU32 false = bit_and-lt 32 r.bits _ h (omega arith)
  set_overflow-IsU32 true = bit_or-lt 32 r.bits _ h (omega arith)

  pub set_execution_mode-IsU32 : (m : ExecutionMode) → IsU32 (set_execution_mode r m).bits
  unfolding set_execution_mode
  set_execution_mode-IsU32 arm = bit_and-lt 32 r.bits _ h (omega arith)
  set_execution_mode-IsU32 thumb = bit_or-lt 32 r.bits _ h (omega arith)
