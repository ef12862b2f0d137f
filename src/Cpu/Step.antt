-- ===== src/Cpu/Step.antt =====
-- crates/vmrp-cpu/src/fetch.rs, `decode_opcode` of decode/mod.rs, and `Cpu` of cpu.rs.
use vmrp_rust.Prelude.{ℕ, zero, suc, ◌%◌, ◌^◌, []}
use vmrp_rust.Cpu.Cpsr.{ExecutionMode, arm, thumb}
use vmrp_rust.Cpu.Regs
use vmrp_rust.Cpu.Regs.{CpuRegs, default_regs}
use vmrp_rust.Cpu.Memory.{MemoryBus}
use vmrp_rust.Cpu.Decode.{DecodedInstruction}
use vmrp_rust.Cpu.Arm
use vmrp_rust.Cpu.Thumb
use vmrp_rust.Cpu.Machine.{
  Machine, Outcome, ok, err, panicked, step_limit_exceeded, StepTrace, Exec, pure, ◌>>=◌, reg,
  read16, read32,
}
use vmrp_rust.Cpu.Execute.{execute_instruction}

unfoldable pub decode_opcode : ExecutionMode → ℕ → DecodedInstruction
unfolding Arm.decode Thumb.decode
decode_opcode arm opcode = Arm.decode opcode
decode_opcode thumb opcode = Thumb.decode (opcode % 2 ^ 16)

pub record FetchedOpcode : Type 0 where
  pub pc : ℕ
  pub mode : ExecutionMode
  pub opcode : ℕ

-- The `Cpu`: its memory and its registers.
pub record Cpu (M : Type 0) : Type 0 where
  pub memory : M
  pub regs : CpuRegs

unfoldable pub new : {M : Type 0} → M → Cpu M
new memory = record { memory = memory; regs = default_regs }

-- An instruction starts with no register writes, and drops those of a step that fails.
abbrev pub start : {M : Type 0} → Cpu M → Machine M
start c = record { memory = c.memory; regs = c.regs; register_writes = [] }

abbrev pub finish : {M A : Type 0} → Outcome A × Machine M → Outcome A × Cpu M
finish (out, s) = (out, record { memory = s.memory; regs = s.regs })

module _ {M : Type 0} ⦃bus : MemoryBus M⦄ where
  unfoldable pub read_opcode : ExecutionMode → ℕ → Exec M ℕ
  unfolding read32 read16
  read_opcode arm pc = read32 pc
  read_opcode thumb pc = read16 pc

  unfoldable pub mode_now : Exec M ExecutionMode
  mode_now s = (ok (Regs.execution_mode s.regs), s)

  unfoldable pub fetch_opcode : Exec M FetchedOpcode
  unfolding reg read_opcode mode_now Regs.execution_mode
  fetch_opcode = do
    pc ← reg 15
    mode ← mode_now
    opcode ← read_opcode mode pc
    pure (record { pc = pc; mode = mode; opcode = opcode })

  unfoldable pub step_machine : Exec M StepTrace
  unfolding fetch_opcode decode_opcode execute_instruction
  step_machine = do
    fetched ← fetch_opcode
    execute_instruction (decode_opcode fetched.mode fetched.opcode) fetched.pc fetched.mode
        fetched.opcode

  unfoldable pub step : Cpu M → Outcome StepTrace × Cpu M
  unfolding step_machine
  step c = finish (step_machine (start c))

  -- After the loop: `Err(StepLimitExceeded { … })`.
  unfoldable pub limit_reached : ℕ → Cpu M → Outcome (Unit {0}) × Cpu M
  limit_reached max_steps c = (err (step_limit_exceeded max_steps (c.regs.regs 15)), c)

  -- One round of the loop, then the rest of it.
  unfoldable pub after_step :
      Outcome StepTrace × Cpu M → (Cpu M → Outcome (Unit {0}) × Cpu M) → Outcome (Unit {0}) × Cpu M
  after_step (ok trace, c) rest = rest c
  after_step (err e, c) rest = (err e, c)
  after_step (panicked, c) rest = (panicked, c)

  -- The loop of `run_until`, with `rounds` to go.
  unfoldable pub run_rounds : ℕ → ℕ → Cpu M → Outcome (Unit {0}) × Cpu M
  unfolding limit_reached after_step
  run_rounds max_steps zero c = limit_reached max_steps c
  run_rounds max_steps (suc rounds) c = after_step (step c) (run_rounds max_steps rounds)

  unfoldable pub run_until : ℕ → Cpu M → Outcome (Unit {0}) × Cpu M
  unfolding run_rounds
  run_until max_steps c = run_rounds max_steps max_steps c
