-- ===== src/Cpu/Condition/Compare.antt =====
-- The condition codes after a comparison, against the orders of u32 and i32.
use mathlib.Core.Bool.{beq, not-not}
use vmrp_rust.Prelude.{ℕ, Bool, not, ltb, leb, ◌==◌, ◌≡◌, ap, ◌∙◌, sym, arith}
use vmrp_rust.Prelude.Int.{as_i32, ltb_ℤ, leb_ℤ}
use vmrp_rust.Word.{IsU32, sub32, bit}
use vmrp_rust.Cpu.Cpsr.{Cpsr, update_nzcv_sub, sub_overflow, negative, zero_flag, carry, overflow}
use vmrp_rust.Cpu.Cpsr.Flags.{Flags, flags}
use vmrp_rust.Cpu.Cpsr.Compare.{update_nzcv_sub-flags, sub_less}
use vmrp_rust.Cpu.Condition.{arm_condition_passed}

-- What each condition code decides, of a comparison of `a` with `b`.
pub record Decides (passed : ℕ → Bool) (a b : ℕ) : Type 0 where
  pub equal : passed 0x0 ≡ (a == b)
  pub not_equal : passed 0x1 ≡ not (a == b)
  pub higher_or_same : passed 0x2 ≡ leb b a
  pub lower : passed 0x3 ≡ ltb a b
  pub higher : passed 0x8 ≡ ltb b a
  pub lower_or_same : passed 0x9 ≡ leb a b
  pub greater_or_equal : passed 0xa ≡ leb_ℤ (as_i32 b) (as_i32 a)
  pub less : passed 0xb ≡ ltb_ℤ (as_i32 a) (as_i32 b)
  pub greater : passed 0xc ≡ ltb_ℤ (as_i32 b) (as_i32 a)
  pub less_or_equal : passed 0xd ≡ leb_ℤ (as_i32 a) (as_i32 b)

-- The status register after the comparison of `a` with `b`.
abbrev pub compared : Cpsr → ℕ → ℕ → Cpsr
compared r a b = update_nzcv_sub r a b (sub32 a b)

not-ltb : (x y : ℕ) → not (ltb x y) ≡ leb y x
not-ltb x y = ground arith

module _ (r : Cpsr) (h : IsU32 r.bits) (a b : ℕ) (ha : IsU32 a) (hb : IsU32 b) where
  flags-compared : flags (compared r a b) ≡ record {
    n = bit (sub32 a b) 31;
    z = sub32 a b == 0;
    c = leb b a;
    v = sub_overflow a b (sub32 a b);
    mode = (flags r).mode;
  }
  flags-compared = update_nzcv_sub-flags r h a b (sub32 a b)

  z_lem : zero_flag (compared r a b) ≡ (a == b)
  z_lem = ap (λ (f : Flags). f.z) flags-compared ∙ ground arith

  c_lem : carry (compared r a b) ≡ leb b a
  c_lem = ap (λ (f : Flags). f.c) flags-compared

  n_v_lem :
      not (beq (negative (compared r a b)) (overflow (compared r a b)))
      ≡ ltb_ℤ (as_i32 a) (as_i32 b)
  n_v_lem = ap (λ (f : Flags). not (beq f.n f.v)) flags-compared ∙ sub_less a b ha hb

  n_eq_v_lem :
      beq (negative (compared r a b)) (overflow (compared r a b)) ≡ leb_ℤ (as_i32 b) (as_i32 a)
  n_eq_v_lem = sym (not-not _) ∙ ap not n_v_lem ∙ not-ltb _ _

  -- After `update_nzcv_sub` of two u32 operands and their wrapped difference, the condition codes
  -- 0x0 to 0x3 and 0x8 to 0xd decide equality, the unsigned orders and the signed orders of the
  -- operands, whatever the register held before.
  pub compared-Decides : Decides (arm_condition_passed (compared r a b)) a b
  unfolding arm_condition_passed
  compared-Decides = record {
    equal = z_lem;
    not_equal = ap not z_lem;
    higher_or_same = c_lem;
    lower = ap not c_lem ∙ ground arith;
    higher = rw (c_lem, z_lem) (ground arith);
    lower_or_same = rw (c_lem, z_lem) (ground arith);
    greater_or_equal = n_eq_v_lem;
    less = n_v_lem;
    greater = rw (z_lem, n_eq_v_lem) (ground arith);
    less_or_equal = rw (z_lem, n_v_lem) (ground arith);
  }
