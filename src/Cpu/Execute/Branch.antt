-- ===== src/Cpu/Execute/Branch.antt =====
-- crates/vmrp-cpu/src/execute.rs: branches in ARM mode, and the exchange of modes.
use vmrp_rust.Prelude.{ℕ, bit_and, Bool}
use vmrp_rust.Word.{add32, not32, offset32}
use vmrp_rust.Cpu.Cpsr.{ExecutionMode, arm, thumb}
use vmrp_rust.Cpu.Machine.{Exec, ◌>>=◌, ◌>>◌, reg, set_execution_mode}
use vmrp_rust.Cpu.Execute.Common.{when, advance, write_reg, exchange}

unfoldable pub execute_branch : {M : Type 0} → ℕ → Bool → ℕ → Exec M (Unit {0})
unfolding write_reg advance
execute_branch pc link offset = do
  when link (write_reg 14 (add32 pc 4))
  advance (offset32 pc 8 offset)

unfoldable pub execute_branch_link_exchange_immediate : {M : Type 0} → ℕ → ℕ → Exec M (Unit {0})
unfolding write_reg set_execution_mode advance
execute_branch_link_exchange_immediate pc offset = do
  write_reg 14 (add32 pc 4)
  let target = offset32 pc 8 offset
  set_execution_mode thumb
  advance (bit_and target (not32 1))

-- The return address of a branch with link, by the mode.
unfoldable pub return_address : ExecutionMode → ℕ → ℕ
return_address arm pc = add32 pc 4
return_address thumb pc = add32 pc 2

unfoldable pub execute_branch_exchange :
    {M : Type 0} → ℕ → ExecutionMode → Bool → ℕ → Exec M (Unit {0})
unfolding reg write_reg exchange return_address
execute_branch_exchange pc mode link register = do
  target ← reg register
  when link (write_reg 14 (return_address mode pc))
  exchange target
