-- ===== src/Cpu/Execute/Exchange.antt =====
-- Branches that change the instruction set, in crates/vmrp-cpu/src/execute.rs, and the pair of Thumb
-- instructions that makes a long branch with link.
use vmrp_rust.Prelude.{ℕ, ◌*◌, ◌/◌, ◌%◌, ◌≡◌, ◌≢◌, refl, ap, ◌∙◌, ◌==◌, if◌then◌else◌, arith}
use vmrp_rust.Word.{IsU32}
use vmrp_rust.Word.Masks.{clear_0, clear_word_offset}
use vmrp_rust.Cpu.Cpsr
use vmrp_rust.Cpu.Cpsr.{Cpsr, ExecutionMode, arm, thumb}
use vmrp_rust.Cpu.Cpsr.Flags.{set_execution_mode-flags}
use vmrp_rust.Cpu.Regs
use vmrp_rust.Cpu.Regs.{CpuRegs}
use vmrp_rust.Cpu.Machine.{Machine, Outcome, ok, set_reg, set_pc, push_write, set_execution_mode}
use vmrp_rust.Cpu.Execute.Common.{advance, target_mode, target_pc, exchange}

-- A machine that goes on at a pc in a mode, with all else but the trace as before.
pub record Jumped {M : Type 0} (s : Machine M) (mode : ExecutionMode) (pc : ℕ)
    (x : Outcome (Unit {0}) × Machine M) : Type 0 where
  pub succeeds : x.0 ≡ ok tt
  pub in_mode : Regs.execution_mode x.1.regs ≡ mode
  pub at_pc : x.1.regs.regs 15 ≡ pc
  pub others : (i : ℕ) → i ≢ 15 → x.1.regs.regs i ≡ s.regs.regs i
  pub memory : x.1.memory ≡ s.memory

target_pc-aligned :
    (target : ℕ)
    → IsU32 target
    → target_pc target ≡ (if target % 2 == 1 then target / 2 * 2 else target / 4 * 4)
unfolding target_pc
target_pc-aligned target h = ground (arith, clear_0 target h, clear_word_offset target h)

odd_mode : (target : ℕ) → target_mode target ≡ (if target % 2 == 1 then thumb else arm)
unfolding target_mode
odd_mode target = ground arith

pub mode_after :
    (r : Cpsr)
    → IsU32 r.bits
    → (m : ExecutionMode) → Cpsr.execution_mode (Cpsr.set_execution_mode r m) ≡ m
mode_after r h m = ap (λ f. f.mode) (set_execution_mode-flags r h m)

module _ {M : Type 0} (s : Machine M) (fits : IsU32 s.regs.cpsr.bits) where
  -- From a status word of 32 bits, a branch to a target of 32 bits selects Thumb when bit 0 of the target is set and ARM when it is
  -- not, goes on at the target rounded down to 2 or to 4 bytes, and leaves the memory and the other
  -- registers.
  pub exchange-Jumped :
      (target : ℕ)
      → IsU32 target
      → Jumped s
          (if target % 2 == 1 then thumb else arm)
          (if target % 2 == 1 then target / 2 * 2 else target / 4 * 4)
          (exchange target s)
  unfolding exchange advance set_execution_mode set_pc set_reg push_write Regs.set_reg
      Regs.set_execution_mode Regs.execution_mode
  exchange-Jumped target h = record {
    succeeds = refl;
    in_mode = mode_after s.regs.cpsr fits (target_mode target) ∙ odd_mode target;
    at_pc = target_pc-aligned target h;
    others = λ i p. ground arith;
    memory = refl;
  }
