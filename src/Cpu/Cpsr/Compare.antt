-- ===== src/Cpu/Cpsr/Compare.antt =====
-- What the flags of `update_nzcv_sub` and `update_nzcv_add` (crates/vmrp-cpu/src/regs.rs) say of
-- the operands, read as u32 and as i32.
use vmrp_rust.Prelude.{
  ℕ, zero, suc, ◌+◌, ◌/◌, ◌%◌, ◌^◌, ◌<◌, bit_and, bit_xor, Bool, not, ◌&&◌, ltb, leb, ◌==◌, ◌!=◌,
  ◌≡◌, refl, ap, ◌∙◌, arith,
}
use mathlib.Core.Path.{ap₂}
use mathlib.Core.Bool.{beq}
use vmrp_rust.Prelude.Int.{pos, as_i32, ltb_ℤ, fits_i32, ◌-ℤ◌, ◌+ℤ◌}
use vmrp_rust.Word.{u32_max, IsU32, bit, add32, sub32}
use vmrp_rust.Word.Bits.{bit_and-div, bit_xor-div}
use vmrp_rust.Cpu.Cpsr.{
  Cpsr, update_nz, update_nzcv_add, update_nzcv_sub, add_overflow, sub_overflow,
}
use vmrp_rust.Cpu.Cpsr.Flags.{
  Flags, flags, test_bit, set_zero-flags, set_negative-flags, set_carry-flags, set_overflow-flags,
  set_zero-IsU32, set_negative-IsU32, set_carry-IsU32, set_overflow-IsU32,
}

module _ (r : Cpsr) (h : IsU32 r.bits) where
  pub update_nz-IsU32 : (value : ℕ) → IsU32 (update_nz r value).bits
  unfolding update_nz
  update_nz-IsU32 value = set_negative-IsU32 _ (set_zero-IsU32 r h _) _

  pub update_nz-flags :
      (value : ℕ)
      → flags (update_nz r value) ≡ record (flags r) { n = bit value 31; z = value == 0 }
  unfolding update_nz
  update_nz-flags value =
      set_negative-flags _ (set_zero-IsU32 r h _) _
      ∙ ap (λ (f : Flags). record f { n = bit_and value (2 ^ 31) != 0 }) (set_zero-flags r h _)
      ∙ ap (λ (b : Bool). record (flags r) { n = b; z = value == 0 }) (test_bit 31 value)

  pub update_nzcv_sub-flags :
      (lhs rhs result : ℕ)
      → flags (update_nzcv_sub r lhs rhs result) ≡ record {
        n = bit result 31;
        z = result == 0;
        c = leb rhs lhs;
        v = sub_overflow lhs rhs result;
        mode = (flags r).mode;
      }
  unfolding update_nzcv_sub
  update_nzcv_sub-flags lhs rhs result =
      set_overflow-flags _ (set_carry-IsU32 _ (update_nz-IsU32 result) _) _
      ∙ ap (λ (f : Flags). record f { v = sub_overflow lhs rhs result })
          (set_carry-flags _ (update_nz-IsU32 result) _)
      ∙ ap (λ (f : Flags). record f { c = leb rhs lhs; v = sub_overflow lhs rhs result })
          (update_nz-flags result)

  pub update_nzcv_add-flags :
      (lhs rhs result : ℕ)
      → flags (update_nzcv_add r lhs rhs result) ≡ record {
        n = bit result 31;
        z = result == 0;
        c = ltb u32_max (lhs + rhs);
        v = add_overflow lhs rhs result;
        mode = (flags r).mode;
      }
  unfolding update_nzcv_add
  update_nzcv_add-flags lhs rhs result =
      set_overflow-flags _ (set_carry-IsU32 _ (update_nz-IsU32 result) _) _
      ∙ ap (λ (f : Flags). record f { v = add_overflow lhs rhs result })
          (set_carry-flags _ (update_nz-IsU32 result) _)
      ∙ ap
          (λ (f : Flags). record f { c = ltb u32_max (lhs + rhs); v = add_overflow lhs rhs result })
          (update_nz-flags result)

  pub update_nzcv_sub-IsU32 : (lhs rhs result : ℕ) → IsU32 (update_nzcv_sub r lhs rhs result).bits
  unfolding update_nzcv_sub
  update_nzcv_sub-IsU32 lhs rhs result =
      set_overflow-IsU32 _ (set_carry-IsU32 _ (update_nz-IsU32 result) _) _

  pub update_nzcv_add-IsU32 : (lhs rhs result : ℕ) → IsU32 (update_nzcv_add r lhs rhs result).bits
  unfolding update_nzcv_add
  update_nzcv_add-IsU32 lhs rhs result =
      set_overflow-IsU32 _ (set_carry-IsU32 _ (update_nz-IsU32 result) _) _

top_digit : (x : ℕ) → IsU32 x → x / 2 ^ 31 < 2
top_digit x h = omega arith

digit_overflow :
    (x y z : ℕ)
    → x < 2
    → y < 2
    → z < 2
    → (bit_and (bit_xor x y) (bit_xor x z) % 2 != 0) ≡ (x != y && x != z)
digit_overflow zero zero zero p q s = refl
digit_overflow zero zero (suc zero) p q s = refl
digit_overflow zero (suc zero) zero p q s = refl
digit_overflow zero (suc zero) (suc zero) p q s = refl
digit_overflow (suc zero) zero zero p q s = refl
digit_overflow (suc zero) zero (suc zero) p q s = refl
digit_overflow (suc zero) (suc zero) zero p q s = refl
digit_overflow (suc zero) (suc zero) (suc zero) p q s = refl
digit_overflow (suc (suc x)) y z p q s = absurd (omega arith)
digit_overflow x (suc (suc y)) z p q s = absurd (omega arith)
digit_overflow x y (suc (suc z)) p q s = absurd (omega arith)

digit_both :
    (x y z : ℕ)
    → x < 2
    → y < 2
    → z < 2
    → (bit_and (bit_xor x z) (bit_xor y z) % 2 != 0) ≡ (x != z && y != z)
digit_both zero zero zero p q s = refl
digit_both zero zero (suc zero) p q s = refl
digit_both zero (suc zero) zero p q s = refl
digit_both zero (suc zero) (suc zero) p q s = refl
digit_both (suc zero) zero zero p q s = refl
digit_both (suc zero) zero (suc zero) p q s = refl
digit_both (suc zero) (suc zero) zero p q s = refl
digit_both (suc zero) (suc zero) (suc zero) p q s = refl
digit_both (suc (suc x)) y z p q s = absurd (omega arith)
digit_both x (suc (suc y)) z p q s = absurd (omega arith)
digit_both x y (suc (suc z)) p q s = absurd (omega arith)

module _ (a b c : ℕ) (ha : IsU32 a) (hb : IsU32 b) (hc : IsU32 c) where
  top_bits :
      bit (bit_and (bit_xor a b) (bit_xor a c)) 31
      ≡ (a / 2 ^ 31 != b / 2 ^ 31 && a / 2 ^ 31 != c / 2 ^ 31)
  top_bits =
      ap (λ (t : ℕ). t % 2 != 0)
        (bit_and-div 31 (bit_xor a b) (bit_xor a c)
          ∙ ap₂ bit_and (bit_xor-div 31 a b) (bit_xor-div 31 a c))
      ∙ digit_overflow _ _ _ (top_digit a ha) (top_digit b hb) (top_digit c hc)

  and_top_bits :
      bit (bit_and (bit_xor a c) (bit_xor b c)) 31
      ≡ (a / 2 ^ 31 != c / 2 ^ 31 && b / 2 ^ 31 != c / 2 ^ 31)
  and_top_bits =
      ap (λ (t : ℕ). t % 2 != 0)
        (bit_and-div 31 (bit_xor a c) (bit_xor b c)
          ∙ ap₂ bit_and (bit_xor-div 31 a c) (bit_xor-div 31 b c))
      ∙ digit_both _ _ _ (top_digit a ha) (top_digit b hb) (top_digit c hc)

  add_overflow_lem : add_overflow a b c ≡ (a / 2 ^ 31 != c / 2 ^ 31 && b / 2 ^ 31 != c / 2 ^ 31)
  unfolding add_overflow
  add_overflow_lem = test_bit 31 _ ∙ and_top_bits

  sub_overflow_lem : sub_overflow a b c ≡ (a / 2 ^ 31 != b / 2 ^ 31 && a / 2 ^ 31 != c / 2 ^ 31)
  unfolding sub_overflow
  sub_overflow_lem = test_bit 31 _ ∙ top_bits

module _ (a b : ℕ) (ha : IsU32 a) (hb : IsU32 b) where
  -- The subtraction overflows exactly when the difference of the signed operands fits no i32.
  pub sub_overflow-sub32 : sub_overflow a b (sub32 a b) ≡ not (fits_i32 (as_i32 a -ℤ as_i32 b))
  sub_overflow-sub32 = sub_overflow_lem a b (sub32 a b) ha hb (omega arith) ∙ split
    where
      split :
          (a / 2 ^ 31 != b / 2 ^ 31 && a / 2 ^ 31 != sub32 a b / 2 ^ 31)
          ≡ not (fits_i32 (as_i32 a -ℤ as_i32 b))
      split = ground arith

  -- The sign of the difference, corrected by the overflow, is the signed comparison.
  pub sub_less :
      not (beq (bit (sub32 a b) 31) (sub_overflow a b (sub32 a b))) ≡ ltb_ℤ (as_i32 a) (as_i32 b)
  sub_less = rw (sub_overflow_lem a b (sub32 a b) ha hb (omega arith)) (ground arith)

  -- The addition overflows exactly when the sum of the signed operands fits no i32.
  pub add_overflow-add32 : add_overflow a b (add32 a b) ≡ not (fits_i32 (as_i32 a +ℤ as_i32 b))
  add_overflow-add32 = rw (add_overflow_lem a b (add32 a b) ha hb (omega arith)) (ground arith)

  -- The overflow flag of a subtraction is set exactly when the difference of the signed operands fits no
  -- i32, and the overflow flag of an addition exactly when their sum fits none.
  pub sub_overflow-add_overflow :
      (sub_overflow a b (sub32 a b) ≡ not (fits_i32 (as_i32 a -ℤ as_i32 b)))
      × (add_overflow a b (add32 a b) ≡ not (fits_i32 (as_i32 a +ℤ as_i32 b)))
  sub_overflow-add_overflow = (sub_overflow-sub32, add_overflow-add32)

  -- The addition with a carry in: `add_with_carry` of crates/vmrp-cpu/src/execute.rs.
  pub add_overflow_carry :
      (d : ℕ)
      → d < 2
      → add_overflow a b ((a + b + d) % 2 ^ 32) ≡ not (fits_i32 (as_i32 a +ℤ as_i32 b +ℤ pos d))
  add_overflow_carry d hd =
      rw (add_overflow_lem a b ((a + b + d) % 2 ^ 32) ha hb (omega arith)) (ground arith)
