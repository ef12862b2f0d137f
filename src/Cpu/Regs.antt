-- ===== src/Cpu/Regs.antt =====
-- crates/vmrp-cpu/src/regs.rs, the register file: sixteen registers of u32 and the status register.
use vmrp_rust.Prelude.{ℕ, Option, none, some, ltb, ◌==◌, if◌then◌else◌}
use vmrp_rust.Cpu.Cpsr
use vmrp_rust.Cpu.Cpsr.{Cpsr, ExecutionMode}

abbrev pub sp_index : ℕ
sp_index = 13

abbrev pub lr_index : ℕ
lr_index = 14

abbrev pub pc_index : ℕ
pc_index = 15

-- `regs i` counts for `i < 16` only; an index out of that range is a panic, `none` below.
pub record CpuRegs : Type 0 where
  pub regs : ℕ → ℕ
  pub cpsr : Cpsr

abbrev pub default_regs : CpuRegs
default_regs = record { regs = λ _. 0; cpsr = record { bits = 0 } }

unfoldable pub reg : CpuRegs → ℕ → Option ℕ
reg r index = if ltb index 16 then some (r.regs index) else none

unfoldable pub set_reg : CpuRegs → ℕ → ℕ → Option CpuRegs
set_reg r index value =
    if ltb index 16
    then some (record r { regs = λ i. if i == index then value else r.regs i })
    else none

unfoldable pub execution_mode : CpuRegs → ExecutionMode
unfolding Cpsr.execution_mode
execution_mode r = Cpsr.execution_mode r.cpsr

unfoldable pub set_execution_mode : CpuRegs → ExecutionMode → CpuRegs
unfolding Cpsr.set_execution_mode
set_execution_mode r mode = record r { cpsr = Cpsr.set_execution_mode r.cpsr mode }
