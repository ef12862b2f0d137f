-- ===== src/Cpu/Execute/ThumbAlu.antt =====
-- crates/vmrp-cpu/src/execute.rs: Thumb arithmetic, moves and branches.
use vmrp_rust.Prelude.{ℕ, bit_and, bit_or, Bool, ◌==◌, if◌then◌else◌}
use vmrp_rust.Word.{add32, sub32, not32, offset32}
use vmrp_rust.Cpu.Cpsr.{arm, thumb, update_nz, update_nzcv_add, update_nzcv_sub, carry}
use vmrp_rust.Cpu.Condition.{Condition, thumb_condition_passed}
use vmrp_rust.Cpu.Decode.{RegisterShift, ThumbOperand, ThumbAluOp, ThumbHiOp}
use vmrp_rust.Cpu.Machine.{Exec, pure, ◌>>=◌, ◌>>◌, reg, cpsr, change_cpsr, set_execution_mode}
use vmrp_rust.Cpu.Execute.Common.{advance, write_reg, exchange, apply_register_shift}
use vmrp_rust.Cpu.Execute.DataProcessing.{logical_flags}

unfoldable pub thumb_operand : {M : Type 0} → ThumbOperand → Exec M ℕ
unfolding reg
thumb_operand (ThumbOperand.immediate value) = pure value
thumb_operand (ThumbOperand.register index) = reg index

unfoldable pub execute_thumb_add_sub :
    {M : Type 0} → ℕ → Bool → ℕ → ℕ → ThumbOperand → Exec M (Unit {0})
unfolding reg thumb_operand write_reg change_cpsr advance
execute_thumb_add_sub pc sub rd rs operand = do
  left ← reg rs
  right ← thumb_operand operand
  let result = if sub then sub32 left right else add32 left right
  write_reg rd result
  change_cpsr (λ r.
      if sub then update_nzcv_sub r left right result else update_nzcv_add r left right result)
  advance (add32 pc 2)

unfoldable pub execute_thumb_adjust_sp : {M : Type 0} → ℕ → Bool → ℕ → Exec M (Unit {0})
unfolding reg write_reg advance
execute_thumb_adjust_sp pc subtract immediate = do
  sp ← reg 13
  write_reg 13 (if subtract then sub32 sp immediate else add32 sp immediate)
  advance (add32 pc 2)

-- The `match op`, on the operands.
unfoldable pub thumb_alu : {M : Type 0} → ThumbAluOp → ℕ → ℕ → ℕ → Exec M (Unit {0})
unfolding change_cpsr write_reg
thumb_alu ThumbAluOp.cmp rd left right =
    change_cpsr (λ r. update_nzcv_sub r left right (sub32 left right))
thumb_alu ThumbAluOp.orr rd left right = do
  write_reg rd (bit_or left right)
  change_cpsr (λ r. update_nz r (bit_or left right))
thumb_alu ThumbAluOp.mvn rd left right = do
  write_reg rd (not32 right)
  change_cpsr (λ r. update_nz r (not32 right))

unfoldable pub execute_thumb_alu_register :
    {M : Type 0} → ℕ → ThumbAluOp → ℕ → ℕ → Exec M (Unit {0})
unfolding reg thumb_alu advance
execute_thumb_alu_register pc op rd rs = do
  left ← reg rd
  right ← reg rs
  thumb_alu op rd left right
  advance (add32 pc 2)

unfoldable pub execute_thumb_shift_immediate :
    {M : Type 0} → ℕ → ℕ → ℕ → RegisterShift → Exec M (Unit {0})
unfolding reg cpsr apply_register_shift write_reg logical_flags advance
execute_thumb_shift_immediate pc rd rs shift = do
  value ← reg rs
  status ← cpsr
  (result, shifter_carry) ← apply_register_shift value shift (carry status)
  write_reg rd result
  logical_flags result shifter_carry
  advance (add32 pc 2)

unfoldable pub execute_thumb_cmp_immediate : {M : Type 0} → ℕ → ℕ → ℕ → Exec M (Unit {0})
unfolding reg change_cpsr advance
execute_thumb_cmp_immediate pc rn immediate = do
  left ← reg rn
  change_cpsr (λ r. update_nzcv_sub r left immediate (sub32 left immediate))
  advance (add32 pc 2)

unfoldable pub execute_thumb_long_branch_prefix : {M : Type 0} → ℕ → ℕ → Exec M (Unit {0})
unfolding write_reg advance
execute_thumb_long_branch_prefix pc offset = do
  write_reg 14 (offset32 (add32 pc 4) 0 offset)
  advance (add32 pc 2)

unfoldable pub execute_thumb_long_branch_suffix : {M : Type 0} → ℕ → Bool → ℕ → Exec M (Unit {0})
unfolding reg write_reg set_execution_mode advance
execute_thumb_long_branch_suffix pc exchanges offset = do
  lr ← reg 14
  let target = add32 lr offset
  write_reg 14 (bit_or (add32 pc 2) 1)
  set_execution_mode (if exchanges then arm else thumb)
  advance (if exchanges then bit_and target (not32 3) else bit_and target (not32 1))

unfoldable pub execute_thumb_branch : {M : Type 0} → ℕ → ℕ → Exec M (Unit {0})
unfolding advance
execute_thumb_branch pc offset = advance (offset32 pc 4 offset)

unfoldable pub execute_thumb_conditional_branch :
    {M : Type 0} → ℕ → Condition → ℕ → Exec M (Unit {0})
unfolding cpsr thumb_condition_passed advance
execute_thumb_conditional_branch pc condition offset = do
  status ← cpsr
  advance (if thumb_condition_passed status condition then offset32 pc 4 offset else add32 pc 2)

-- `if index == 15 { pc + 4 } else { regs.reg(index) }`.
unfoldable pub reg_or_pc4 : {M : Type 0} → ℕ → ℕ → Exec M ℕ
unfolding reg
reg_or_pc4 pc index = if index == 15 then pure (add32 pc 4) else reg index

-- The result of Add and Mov: to the pc, without bit 0, or to another register.
unfoldable pub write_hi : {M : Type 0} → ℕ → ℕ → ℕ → Exec M (Unit {0})
unfolding advance write_reg
write_hi pc rd result =
    if rd == 15
    then advance (bit_and result (not32 1))
    else (do write_reg rd result; advance (add32 pc 2))

unfoldable pub thumb_hi : {M : Type 0} → ℕ → ThumbHiOp → ℕ → ℕ → ℕ → Exec M (Unit {0})
unfolding write_hi change_cpsr advance exchange write_reg set_execution_mode
thumb_hi pc ThumbHiOp.add rd left right = write_hi pc rd (add32 left right)
thumb_hi pc ThumbHiOp.cmp rd left right = do
  change_cpsr (λ r. update_nzcv_sub r left right (sub32 left right))
  advance (add32 pc 2)
thumb_hi pc ThumbHiOp.mov rd left right = write_hi pc rd right
thumb_hi pc ThumbHiOp.bx rd left right = exchange right
thumb_hi pc ThumbHiOp.blx rd left right = do
  write_reg 14 (bit_or (add32 pc 2) 1)
  set_execution_mode arm
  advance (bit_and right (not32 3))

unfoldable pub execute_thumb_hi_register_op :
    {M : Type 0} → ℕ → ThumbHiOp → ℕ → ℕ → Exec M (Unit {0})
unfolding reg_or_pc4 thumb_hi
execute_thumb_hi_register_op pc op rd rs = do
  right ← reg_or_pc4 pc rs
  left ← reg_or_pc4 pc rd
  thumb_hi pc op rd left right

unfoldable pub execute_thumb_load_address : {M : Type 0} → ℕ → Bool → ℕ → ℕ → Exec M (Unit {0})
unfolding reg write_reg advance
execute_thumb_load_address pc from_sp rd offset = do
  base ← (if from_sp then reg 13 else pure (bit_and (add32 pc 4) (not32 3)))
  write_reg rd (add32 base offset)
  advance (add32 pc 2)

unfoldable pub execute_thumb_sub_immediate : {M : Type 0} → ℕ → ℕ → ℕ → Exec M (Unit {0})
unfolding reg write_reg change_cpsr advance
execute_thumb_sub_immediate pc rd immediate = do
  left ← reg rd
  let result = sub32 left immediate
  write_reg rd result
  change_cpsr (λ r. update_nzcv_sub r left immediate result)
  advance (add32 pc 2)

unfoldable pub execute_thumb_add_immediate : {M : Type 0} → ℕ → ℕ → ℕ → Exec M (Unit {0})
unfolding reg write_reg change_cpsr advance
execute_thumb_add_immediate pc rd immediate = do
  left ← reg rd
  let result = add32 left immediate
  write_reg rd result
  change_cpsr (λ r. update_nz r result)
  advance (add32 pc 2)

unfoldable pub execute_thumb_mov_immediate : {M : Type 0} → ℕ → ℕ → ℕ → Exec M (Unit {0})
unfolding write_reg change_cpsr advance
execute_thumb_mov_immediate pc rd immediate = do
  write_reg rd immediate
  change_cpsr (λ r. update_nz r immediate)
  advance (add32 pc 2)
