-- ===== src/Cpu/Execute/LongBranch.antt =====
-- The pair of Thumb instructions that makes a long branch with link, from its two opcodes
-- (crates/vmrp-cpu/src/decode/thumb.rs) to its effect (crates/vmrp-cpu/src/execute.rs).
use vmrp_rust.Prelude.{
  ℕ, ◌+◌, ◌*◌, ◌%◌, ◌^◌, ◌<◌, bit_and, bit_or, ◌≡◌, ◌≢◌, refl, ap, ◌∙◌, false, arith,
}
use vmrp_rust.Word.{IsU32, add32, not32, offset32}
use vmrp_rust.Word.Masks.{clear_0, bit_or-pow}
use vmrp_rust.Cpu.Cpsr.{thumb}
use vmrp_rust.Cpu.Regs
use vmrp_rust.Cpu.Regs.{CpuRegs}
use vmrp_rust.Cpu.Memory.{MemoryBus}
use vmrp_rust.Cpu.Machine.{
  Machine, Outcome, ok, ◌>>◌, reg, set_reg, set_pc, push_write, set_execution_mode,
}
use vmrp_rust.Cpu.Thumb.{decode}
use vmrp_rust.Cpu.Thumb.RoundTrip.{upper_offset, decode-prefix, decode-suffix}
use vmrp_rust.Cpu.Execute.{perform}
use vmrp_rust.Cpu.Execute.Exchange.{mode_after}
use vmrp_rust.Cpu.Execute.Common.{advance, write_reg}
use vmrp_rust.Cpu.Execute.ThumbAlu.{
  execute_thumb_long_branch_prefix, execute_thumb_long_branch_suffix,
}

-- A machine that has called a Thumb function: it goes on at the target in Thumb mode, and r14 holds
-- the return address with bit 0 set. All else but the trace is as before.
pub record Called {M : Type 0} (s : Machine M) (target return_to : ℕ)
    (x : Outcome (Unit {0}) × Machine M) : Type 0 where
  pub succeeds : x.0 ≡ ok tt
  pub in_thumb : Regs.execution_mode x.1.regs ≡ thumb
  pub at_target : x.1.regs.regs 15 ≡ target
  pub link : x.1.regs.regs 14 ≡ return_to + 1
  pub others : (i : ℕ) → i ≢ 14 → i ≢ 15 → x.1.regs.regs i ≡ s.regs.regs i
  pub memory : x.1.memory ≡ s.memory

-- The two halves of the offset from pc + 4.
abbrev pub branch_target : ℕ → ℕ → ℕ → ℕ
branch_target pc high low = (pc + 4 + upper_offset high + low * 2) % 2 ^ 32

module _ (pc high low : ℕ) (even : pc % 2 ≡ 0) (is_pc : IsU32 pc) (hh : high < 2 ^ 11)
    (hl : low < 2 ^ 11) where
  summed : add32 (offset32 (add32 pc 4) 0 (upper_offset high)) (low * 2) ≡ branch_target pc high low
  summed = ground arith

  target_aligned :
      bit_and (add32 (offset32 (add32 pc 4) 0 (upper_offset high)) (low * 2)) (not32 1)
      ≡ branch_target pc high low
  target_aligned =
      ap (λ t. bit_and t (not32 1)) summed
      ∙ ground (arith, clear_0 (branch_target pc high low) (omega arith))

  return_marked : bit_or (add32 (add32 pc 2) 2) 1 ≡ (pc + 4) % 2 ^ 32 + 1
  return_marked = omega (arith, bit_or-pow 0 (add32 (add32 pc 2) 2))

  module _ {M : Type 0} ⦃bus : MemoryBus M⦄ (s : Machine M) (fits : IsU32 s.regs.cpsr.bits) where
    pair-Called : Called s (branch_target pc high low) ((pc + 4) % 2 ^ 32) (
        (execute_thumb_long_branch_prefix {M = M} pc (upper_offset high)
            >> execute_thumb_long_branch_suffix (add32 pc 2) false (low * 2))
          s)
    unfolding execute_thumb_long_branch_prefix execute_thumb_long_branch_suffix write_reg advance
        reg set_execution_mode set_pc set_reg push_write Regs.reg Regs.set_reg
        Regs.set_execution_mode Regs.execution_mode
    pair-Called = record {
      succeeds = refl;
      in_thumb = mode_after s.regs.cpsr fits thumb;
      at_target = target_aligned;
      link = return_marked;
      others = λ i p q. ground arith;
      memory = refl;
    }

    -- Two opcodes 0xf000 + high and 0xf800 + low that run one after the other, with a status word
    -- of 32 bits, the first at an even 32-bit
    -- pc, call the Thumb function at pc + 4 + offset, for the signed offset of 22 bits that the two
    -- halves spell, and r14 is the address after the pair with bit 0 set. The memory and the other
    -- registers stay.
    pub long_branch-Called : Called s (branch_target pc high low) ((pc + 4) % 2 ^ 32) (
        (perform {M = M} (decode (0xf000 + high)) pc thumb (0xf000 + high)
            >> perform (decode (0xf800 + low)) (add32 pc 2) thumb (0xf800 + low))
          s)
    unfolding perform
    long_branch-Called = rw (decode-prefix high hh) (rw (decode-suffix low hl) pair-Called)
