-- ===== src/Strings/Printed.antt =====
-- The value that `parse_guest_strtoul` of crates/vmrp-platform/src/lib.rs reads from digits.
use vmrp_rust.Prelude.{
  ℕ, suc, ◌+◌, ◌-◌, ◌*◌, ◌≤◌, ◌<◌, ◌^◌, min, ◌≡◌, ap, ◌∙◌, inl, inr, false, ◌||◌, some, List, [],
  ◌∷◌, map, length, All, leb, ◌==◌, arith, Bool-cases,
}
use native.Mathlib.Nat.{mul-le-mul_right}
use vmrp_rust.Abi.Outcome.{ok}
use vmrp_rust.Strings.{
  is_ascii_whitespace, to_digit, at, skip_whitespace, actual_base, accumulate, scan_digits,
  parse_guest_strtoul,
}

-- The number that digits spell behind `n`, with no bound.
abbrev pub horner : ℕ → ℕ → List ℕ → ℕ
horner base n [] = n
horner base n (d ∷ ds) = horner base (n * base + d) ds

abbrev pub digit_char : ℕ → ℕ
digit_char d = b'0' + d

-- The greatest u32.
abbrev most : ℕ
most = 2 ^ 32 - 1

-- A value that stops at the greatest u32 is the true value, or the true value is past it.
accumulate-min :
    (n base d : ℕ) → 1 ≤ base → accumulate (min n most) base d ≡ min (n * base + d) most
accumulate-min n base d h = elim (Bool-cases (leb n most)) [
  | inl p ↦ low (ground arith)
  | inr p ↦ high (ground arith)
]
  where
    low : n ≤ most → accumulate (min n most) base d ≡ min (n * base + d) most
    low p = let e : min n most ≡ n = omega arith in rw e (omega arith)

    high : most < n → accumulate (min n most) base d ≡ min (n * base + d) most
    high p =
        let e : min n most ≡ most = omega arith in
        let past = mul-le-mul_right {m = most} {n = n} base (omega arith) in
        rw e (omega (arith, past, most_times))
      where
        most_times : most ≤ most * base
        most_times = omega arith

to_digit-digit_char : (base d : ℕ) → d < base → base ≤ 10 → to_digit base (digit_char d) ≡ some d
unfolding to_digit
to_digit-digit_char base d h k = ground arith

scan_digits-digits :
    (base : ℕ) (ds : List ℕ) (n index : ℕ)
    → 1 ≤ base
    → base ≤ 10
    → All (λ d. d < base) ds
    → scan_digits base (map digit_char ds) (min n most) index
      ≡ (min (horner base n ds) most, index + length ds)
unfolding scan_digits
scan_digits-digits base [] n index h k v = λ i. (min n most, plus_zero index i)
  where
    plus_zero : (a : ℕ) → a ≡ a + 0
    plus_zero a = omega arith
scan_digits-digits base (d ∷ ds) n index h k (v, vs) =
    rw (to_digit-digit_char base d v k, accumulate-min n base d h)
      (scan_digits-digits base ds (n * base + d) (suc index) h k vs
        ∙ ap (λ m. (min (horner base (n * base + d) ds) most, m)) (plus_suc index (length ds)))
  where
    plus_suc : (a b : ℕ) → suc a + b ≡ a + suc b
    plus_suc a b = omega arith

-- In a base from 2 to 10, strtoul reads a text of digits to its end, and the value is the number that
-- the digits spell, or the greatest u32 when that is larger.
pub parse_guest_strtoul-digits :
    {E : Type 0} (base d : ℕ) (ds : List ℕ)
    → 2 ≤ base
    → base ≤ 10
    → All (λ e. e < base) (d ∷ ds)
    → parse_guest_strtoul {E = E} (map digit_char (d ∷ ds)) base
      ≡ ok (min (horner base 0 (d ∷ ds)) (2 ^ 32 - 1), length (d ∷ ds))
unfolding parse_guest_strtoul skip_whitespace actual_base
parse_guest_strtoul-digits base d ds h k (v, vs) =
    rw
      (
        no_space,
        no_sign,
        base_nonzero,
        base_not_hex,
        scan_digits-digits base (d ∷ ds) 0 0 (omega arith) k (v, vs),
      )
      (ground arith)
  where
    no_space : is_ascii_whitespace (digit_char d) ≡ false
    no_space = ground arith

    no_sign : (at (map digit_char (d ∷ ds)) 0 b'+' || at (map digit_char (d ∷ ds)) 0 b'-') ≡ false
    no_sign = ground arith

    base_nonzero : (base == 0) ≡ false
    base_nonzero = ground arith

    base_not_hex : (base == 16) ≡ false
    base_not_hex = ground arith
