-- ===== src/Cpu/Execute/Arithmetic.antt =====
-- `add_with_carry` and the long multiplication of crates/vmrp-cpu/src/execute.rs against integers.
use vmrp_rust.Prelude.{
  ℕ, ◌+◌, ◌*◌, ◌/◌, ◌%◌, ◌^◌, ◌<◌, bit_or, ◌≡◌, ◌≢◌, refl, Bool, true, false, not, ltb,
  if◌then◌else◌, of_bool, arith, lt→ltb, ◌∙◌,
}
use vmrp_rust.Prelude.Int.{pos, as_i32, fits_i32, ◌+ℤ◌}
use vmrp_rust.Word.{IsU32}
use vmrp_rust.Word.Bits.{bit_or_split, bit_or-zero, zero-bit_or}
use vmrp_rust.Cpu.Cpsr.Compare.{add_overflow_carry}
use vmrp_rust.Cpu.Regs
use vmrp_rust.Cpu.Regs.{CpuRegs}
use vmrp_rust.Cpu.Machine.{Machine, Outcome, ok, reg, set_reg, set_pc, push_write, change_cpsr}
use vmrp_rust.Cpu.Execute.Common.{add_with_carry, advance}
use vmrp_rust.Cpu.Execute.DataProcessing.{long_product, execute_multiply_long}

-- What a sum with a carry in has to answer: the word and the carry out spell the unsigned sum, and
-- the overflow tells that the signed sum fits no i32.
pub record Sums (a b : ℕ) (c : Bool) (x : ℕ × Bool × Bool) : Type 0 where
  pub word : IsU32 x.0
  pub unsigned : of_bool x.1 * 2 ^ 32 + x.0 ≡ a + b + of_bool c
  pub signed : x.2 ≡ not (fits_i32 (as_i32 a +ℤ as_i32 b +ℤ pos (of_bool c)))

-- Of two words of 32 bits and a carry, `add_with_carry` gives the word of the sum, its carry out,
-- and the signed overflow.
pub add_with_carry-Sums :
    (a b : ℕ) (c : Bool) → IsU32 a → IsU32 b → Sums a b c (add_with_carry a b c)
unfolding add_with_carry
add_with_carry-Sums a b c ha hb = record {
  word = omega arith;
  unsigned = ground arith;
  signed = add_overflow_carry a b ha hb (of_bool c) (ground arith);
}

-- Two words side by side.
joined : (hi lo : ℕ) → IsU32 lo → bit_or (hi * 2 ^ 32) lo ≡ hi * 2 ^ 32 + lo
joined hi lo h =
    bit_or_split 32 (hi * 2 ^ 32) lo
    ∙ rw (high, upper, low, lower) (omega (arith, bit_or-zero hi, zero-bit_or lo))
  where
    high : hi * 2 ^ 32 / 2 ^ 32 ≡ hi
    high = omega arith

    upper : lo / 2 ^ 32 ≡ 0
    upper = omega arith

    low : hi * 2 ^ 32 % 2 ^ 32 ≡ 0
    low = omega arith

    lower : lo % 2 ^ 32 ≡ lo
    lower = omega arith

-- The two registers of a long product, after it.
pub record Product {M : Type 0} (rd_hi rd_lo total : ℕ) (x : Outcome (Unit {0}) × Machine M)
    : Type 0 where
  pub succeeds : x.0 ≡ ok tt
  pub value : x.1.regs.regs rd_hi * 2 ^ 32 + x.1.regs.regs rd_lo ≡ total

abbrev pub long_word : {M : Type 0} → Machine M → ℕ → ℕ → ℕ
long_word s hi lo = s.regs.regs hi * 2 ^ 32 + s.regs.regs lo

-- What the destination registers hold before, when it is accumulated.
abbrev pub accumulator : {M : Type 0} → Bool → Machine M → ℕ → ℕ → ℕ
accumulator accumulate s hi lo = if accumulate then s.regs.regs hi * 2 ^ 32 + s.regs.regs lo else 0

module _ {M : Type 0} (s : Machine M) (rd_hi rd_lo rm rs pc : ℕ) (hh : rd_hi < 15) (hl : rd_lo < 15)
    (ne : rd_hi ≢ rd_lo) (hm : rm < 16) (hs : rs < 16) (fit : IsU32 (s.regs.regs rd_lo)) where
  is_hi : ltb rd_hi 16 ≡ true
  is_hi = lt→ltb rd_hi 16 (omega arith)

  is_lo : ltb rd_lo 16 ≡ true
  is_lo = lt→ltb rd_lo 16 (omega arith)

  -- UMULL and UMLAL, with or without the flags, leave the unsigned product of two registers, plus
  -- what the destination registers held when it is accumulated, modulo 2 ^ 64, in two different
  -- destination registers other than the pc, the lower of which held 32 bits.
  pub execute_multiply_long-Product :
      (accumulate set_flags : Bool)
      → Product rd_hi rd_lo
          ((s.regs.regs rm * s.regs.regs rs + accumulator accumulate s rd_hi rd_lo) % 2 ^ 64)
          (execute_multiply_long false accumulate set_flags rd_hi rd_lo rm rs pc s)
  unfolding execute_multiply_long long_product reg set_reg set_pc push_write change_cpsr advance
      Regs.reg Regs.set_reg
  execute_multiply_long-Product false false =
      rw (lt→ltb rm 16 hm, lt→ltb rs 16 hs, is_lo, is_hi)
        (record { succeeds = refl; value = ground arith })
  execute_multiply_long-Product false true =
      rw (lt→ltb rm 16 hm, lt→ltb rs 16 hs, is_lo, is_hi)
        (record { succeeds = refl; value = ground arith })
  execute_multiply_long-Product true false =
      rw (lt→ltb rm 16 hm, lt→ltb rs 16 hs, is_hi, is_lo)
        (rw (is_lo, is_hi)
          (record {
            succeeds = refl;
            value = ground (arith, joined (s.regs.regs rd_hi) (s.regs.regs rd_lo) fit);
          }))
  execute_multiply_long-Product true true =
      rw (lt→ltb rm 16 hm, lt→ltb rs 16 hs, is_hi, is_lo)
        (rw (is_lo, is_hi)
          (record {
            succeeds = refl;
            value = ground (arith, joined (s.regs.regs rd_hi) (s.regs.regs rd_lo) fit);
          }))
