-- ===== src/Strings/Scanned.antt =====
-- The numbers that `parse_guest_strtoul` of crates/vmrp-platform/src/lib.rs reads.
use vmrp_rust.Prelude.{
  ℕ, suc, ◌+◌, ◌≤◌, ◌<◌, ◌^◌, ◌≡◌, ◌⊎◌, inl, inr, ◌||◌, ◌&&◌, Option, none, some, [], ◌∷◌, length,
  drop, ltb, ◌==◌, if◌then◌else◌, arith, Bool-cases, length-drop,
}
use vmrp_rust.Abi.{Bytes}
use vmrp_rust.Abi.Outcome.{Outcome, ok, panicked}
use vmrp_rust.Strings.{
  to_digit, at, skip_whitespace, actual_base, accumulate, scanned, scan_digits, parse_guest_strtoul,
}

skip_whitespace-le :
    (rest : Bytes) (index : ℕ)
    → (index ≤ skip_whitespace rest index) × (skip_whitespace rest index ≤ index + length rest)
unfolding skip_whitespace
skip_whitespace-le [] index = (omega arith, omega arith)
skip_whitespace-le (c ∷ rest) index = ground (arith, skip_whitespace-le rest (suc index))

scan_digits-le :
    (base : ℕ) (rest : Bytes) (value index : ℕ)
    → value < 2 ^ 32
    → (scan_digits base rest value index).1 ≤ index + length rest
      × ((scan_digits base rest value index).0 < 2 ^ 32)
unfolding scan_digits
scan_digits-le base [] value index h = (omega arith, h)
scan_digits-le base (c ∷ rest) value index h =
    cases (to_digit base c)
      (λ digit. scan_digits-le base rest (accumulate value base digit) (suc index) (omega arith))
  where
    cases :
        (o : Option ℕ)
        → ((digit : ℕ)
            → ((scan_digits base rest (accumulate value base digit) (suc index)).1
                ≤ suc index + length rest)
              × ((scan_digits base rest (accumulate value base digit) (suc index)).0 < 2 ^ 32))
        → ((scanned o
              (value, index)
              (λ digit. scan_digits base rest (accumulate value base digit) (suc index))).1
            ≤ index + suc (length rest))
          × ((scanned o
                (value, index)
                (λ digit. scan_digits base rest (accumulate value base digit) (suc index))).0
              < 2 ^ 32)
    cases none k = (omega arith, h)
    cases (some digit) k = let (a, b) = k digit in (omega arith, b)

actual_base-le :
    (bytes : Bytes) (base index : ℕ)
    → index ≤ length bytes
    → (index ≤ (actual_base bytes base index).1) × ((actual_base bytes base index).1 ≤ length bytes)
unfolding actual_base
actual_base-le bytes base index h = ground arith

-- A base that `to_digit` takes.
abbrev IsRadix : ℕ → Type 0
IsRadix base = (2 ≤ base) × (base ≤ 36)

actual_base-IsRadix :
    (bytes : Bytes) (base index : ℕ)
    → (base ≡ 0) ⊎ IsRadix base
    → IsRadix ((actual_base bytes base index).0)
unfolding actual_base
actual_base-IsRadix bytes base index h = ground arith

-- A value of u32 and a count of bytes of the text.
pub data Parsed {E : Type 0} (n : ℕ) : Outcome E (ℕ × ℕ) → Type 0 where
  parsed : {value consumed : ℕ} → value < 2 ^ 32 → consumed ≤ n → Parsed n (ok (value, consumed))

-- For any text and a base of 0 or from 2 to 36, strtoul never panics: its value fits a u32 and it has
-- consumed no more than the text.
pub parse_guest_strtoul-Parsed :
    {E : Type 0} (bytes : Bytes) (base : ℕ)
    → (base ≡ 0) ⊎ ((2 ≤ base) × (base ≤ 36))
    → Parsed (length bytes) (parse_guest_strtoul {E = E} bytes base)
unfolding parse_guest_strtoul
parse_guest_strtoul-Parsed {E = E} bytes base h =
    finish (actual_base bytes base after_sign) (actual_base-le bytes base after_sign sign-le)
      (actual_base-IsRadix bytes base after_sign h)
  where
    start : ℕ
    start = skip_whitespace bytes 0

    start-le : start ≤ length bytes
    start-le = omega (arith, (skip_whitespace-le bytes 0).1)

    after_sign : ℕ
    after_sign = if at bytes start b'+' || at bytes start b'-' then start + 1 else start

    sign-le : after_sign ≤ length bytes
    sign-le = ground (arith, start-le)

    finish :
        (b : ℕ × ℕ)
        → (after_sign ≤ b.1) × (b.1 ≤ length bytes)
        → IsRadix (b.0)
        → Parsed {E = E} (length bytes) (
            let (value, index) = scan_digits (b.0) (drop (b.1) bytes) 0 (b.1) in
            if ltb (b.1) (length bytes) && (ltb (b.0) 2 || ltb 36 (b.0))
            then panicked
            else if b.1 == index
            then ok (0, start)
            else ok (value, index))
    finish (r, d) (p, q) (u, v) =
        let (le, lt) = scan_digits-le r (drop d bytes) 0 d (omega arith) in
        elim (Bool-cases (ltb d (length bytes) && (ltb r 2 || ltb 36 r))) [
          | inl t ↦ absurd (ground arith)
          | inr t ↦ rw t (elim (Bool-cases (d == (scan_digits r (drop d bytes) 0 d).1)) [
            | inl e ↦ rw e (parsed (omega arith) start-le)
            | inr e ↦ rw e (parsed lt (omega (arith, length-drop d bytes)))
          ])
        ]
