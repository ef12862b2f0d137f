-- ===== src/Cpu/Safety/Branch.antt =====
-- The branches of crates/vmrp-cpu/src/execute.rs keep the registers u32 and never panic.
use vmrp_rust.Prelude.{ℕ, ◌<◌, Bool, arith}
use vmrp_rust.Word.{IsU32, not32, offset32}
use vmrp_rust.Word.Bounds.{bit_and-IsU32}
use vmrp_rust.Cpu.Cpsr.{ExecutionMode, arm, thumb}
use vmrp_rust.Cpu.Safety.{
  MemoryInvariant, Safely, Done, Safely-bind, Safely-then, reg-Safely, set_execution_mode-Safely,
}
use vmrp_rust.Cpu.Safety.Common.{when-Safely, write_reg-Safely, advance-Safely, exchange-Safely}
use vmrp_rust.Cpu.Safety.DataProcessing.{add32-IsU32, not32-IsU32}
use vmrp_rust.Cpu.Execute.Branch.{
  execute_branch, execute_branch_link_exchange_immediate, return_address, execute_branch_exchange,
}

pub offset32-IsU32 : (pc k offset : ℕ) → IsU32 (offset32 pc k offset)
offset32-IsU32 pc k offset = omega arith

return_address-IsU32 : (mode : ExecutionMode) (pc : ℕ) → IsU32 (return_address mode pc)
unfolding return_address
return_address-IsU32 arm pc = add32-IsU32 pc 4
return_address-IsU32 thumb pc = add32-IsU32 pc 2

module _ {M : Type 0} ⦃inv : MemoryInvariant M⦄ where
  pub execute_branch-Safely :
      (pc : ℕ) (link : Bool) (offset : ℕ) → Safely {M = M} Done (execute_branch pc link offset)
  unfolding execute_branch
  execute_branch-Safely pc link offset =
      Safely-then (when-Safely link (write_reg-Safely 14 _ (omega arith) (add32-IsU32 pc 4)))
        (advance-Safely _ (offset32-IsU32 pc 8 offset))

  pub execute_branch_link_exchange_immediate-Safely :
      (pc offset : ℕ) → Safely {M = M} Done (execute_branch_link_exchange_immediate pc offset)
  unfolding execute_branch_link_exchange_immediate
  execute_branch_link_exchange_immediate-Safely pc offset =
      Safely-then (write_reg-Safely 14 _ (omega arith) (add32-IsU32 pc 4)) (
        Safely-then (set_execution_mode-Safely thumb) (
          advance-Safely _
            (bit_and-IsU32 _ (not32 1) (offset32-IsU32 pc 8 offset) (not32-IsU32 1))))

  pub execute_branch_exchange-Safely :
      (pc : ℕ) (mode : ExecutionMode) (link : Bool) (register : ℕ)
      → register < 16
      → Safely {M = M} Done (execute_branch_exchange pc mode link register)
  unfolding execute_branch_exchange
  execute_branch_exchange-Safely pc mode link register h =
      Safely-bind (reg-Safely register h) λ target q.
        Safely-then
          (when-Safely link (write_reg-Safely 14 _ (omega arith) (return_address-IsU32 mode pc)))
          (exchange-Safely target q)
