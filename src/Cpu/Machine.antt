-- ===== src/Cpu/Machine.antt =====
-- The state that `execute_instruction` (crates/vmrp-cpu/src/execute.rs) works on: the memory, the
-- registers and the trace of register writes (crates/vmrp-cpu/src/trace.rs), with the errors of
-- crates/vmrp-cpu/src/cpu.rs. What was changed before an error stays changed.
use vmrp_rust.Prelude.{ℕ, Option, none, some, List, [], ◌∷◌, ◌++◌}
use vmrp_rust.Prelude.Result.{Result}
use vmrp_rust.Cpu.Cpsr.{Cpsr, ExecutionMode}
use vmrp_rust.Cpu.Regs
use vmrp_rust.Cpu.Regs.{CpuRegs}
use vmrp_rust.Cpu.Memory.{MemoryAccessError, MemoryBus}

pub data CpuError : Type 0 where
  memory_error : MemoryAccessError → CpuError
  step_limit_exceeded : (steps last_pc : ℕ) → CpuError
  unimplemented_instruction : (pc : ℕ) (mode : ExecutionMode) (opcode : ℕ) → CpuError

pub record RegisterWrite : Type 0 where
  pub index : ℕ
  pub value : ℕ

pub record StepTrace : Type 0 where
  pub pc : ℕ
  pub mode : ExecutionMode
  pub opcode : ℕ
  pub register_writes : List RegisterWrite

pub record Machine (M : Type 0) : Type 0 where
  pub memory : M
  pub regs : CpuRegs
  pub register_writes : List RegisterWrite

-- `panicked` is a Rust panic: an index out of range, or an underflow of unsigned arithmetic.
pub data Outcome {ℓ} (A : Type ℓ) : Type ℓ where
  ok : A → Outcome A
  err : CpuError → Outcome A
  panicked : Outcome A

abbrev pub Exec : Type 0 → Type 0 → Type 0
Exec M A = Machine M → Outcome A × Machine M

abbrev pub and_then :
    {M A B : Type 0} → Outcome A × Machine M → (A → Exec M B) → Outcome B × Machine M
and_then (ok a, s) f = f a s
and_then (err e, s) f = (err e, s)
and_then (panicked, s) f = (panicked, s)

abbrev pub pure : {M A : Type 0} → A → Exec M A
pure a s = (ok a, s)

infixl 5 ◌>>=◌ ◌>>◌
abbrev pub ◌>>=◌ : {M A B : Type 0} → Exec M A → (A → Exec M B) → Exec M B
◌>>=◌ m f s = and_then (m s) f

abbrev pub ◌>>◌ : {M B : Type 0} → Exec M (Unit {0}) → Exec M B → Exec M B
m >> k = m >>= λ _. k

unfoldable pub fail : {M A : Type 0} → CpuError → Exec M A
fail e s = (err e, s)

unfoldable pub panic : {M A : Type 0} → Exec M A
panic s = (panicked, s)

abbrev of_option : {M A : Type 0} → Machine M → Option A → Outcome A × Machine M
of_option s none = (panicked, s)
of_option s (some a) = (ok a, s)

abbrev with_regs : {M : Type 0} → Machine M → Option CpuRegs → Outcome (Unit {0}) × Machine M
with_regs s none = (panicked, s)
with_regs s (some r) = (ok tt, record s { regs = r })

-- `regs.reg(index)` and `regs.set_reg(index, value)`.
unfoldable pub reg : {M : Type 0} → ℕ → Exec M ℕ
unfolding Regs.reg
reg index s = of_option s (Regs.reg s.regs index)

unfoldable pub set_reg : {M : Type 0} → ℕ → ℕ → Exec M (Unit {0})
unfolding Regs.set_reg
set_reg index value s = with_regs s (Regs.set_reg s.regs index value)

unfoldable pub set_pc : {M : Type 0} → ℕ → Exec M (Unit {0})
unfolding set_reg
set_pc value = set_reg Regs.pc_index value

unfoldable pub cpsr : {M : Type 0} → Exec M Cpsr
cpsr s = (ok s.regs.cpsr, s)

-- `regs.cpsr_mut().change(…)`.
unfoldable pub change_cpsr : {M : Type 0} → (Cpsr → Cpsr) → Exec M (Unit {0})
change_cpsr change s = (ok tt, record s { regs = record (s.regs) { cpsr = change s.regs.cpsr } })

unfoldable pub set_execution_mode : {M : Type 0} → ExecutionMode → Exec M (Unit {0})
unfolding Regs.set_execution_mode
set_execution_mode mode s = (ok tt, record s { regs = Regs.set_execution_mode s.regs mode })

-- `register_writes.push(RegisterWrite { index, value })`.
unfoldable pub push_write : {M : Type 0} → ℕ → ℕ → Exec M (Unit {0})
push_write index value s = (
  ok tt,
  record s { register_writes = s.register_writes ++ record { index = index; value = value } ∷ [] },
)

abbrev pub of_read : {M A : Type 0} → Machine M → Result MemoryAccessError A → Outcome A × Machine M
of_read s (Result.ok a) = (ok a, s)
of_read s (Result.err e) = (err (memory_error e), s)

abbrev pub of_write :
    {M : Type 0}
    → Machine M
    → Result MemoryAccessError (Unit {0}) × M
    → Outcome (Unit {0}) × Machine M
of_write s (r, m) = of_read (record s { memory = m }) r

-- The accesses of the bus, with `?`.
module _ {M : Type 0} ⦃bus : MemoryBus M⦄ where
  unfoldable pub read8 : ℕ → Exec M ℕ
  read8 addr s = of_read s (bus.read8 s.memory addr)

  unfoldable pub read16 : ℕ → Exec M ℕ
  read16 addr s = of_read s (bus.read16 s.memory addr)

  unfoldable pub read32 : ℕ → Exec M ℕ
  read32 addr s = of_read s (bus.read32 s.memory addr)

  unfoldable pub write8 : ℕ → ℕ → Exec M (Unit {0})
  write8 addr value s = of_write s (bus.write8 s.memory addr value)

  unfoldable pub write16 : ℕ → ℕ → Exec M (Unit {0})
  write16 addr value s = of_write s (bus.write16 s.memory addr value)

  unfoldable pub write32 : ℕ → ℕ → Exec M (Unit {0})
  write32 addr value s = of_write s (bus.write32 s.memory addr value)
