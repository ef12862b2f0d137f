-- ===== src/Cpu/Safety/ThumbAlu.antt =====
-- Thumb arithmetic, moves and branches of crates/vmrp-cpu/src/execute.rs keep the registers u32
-- and never panic.
use vmrp_rust.Prelude.{ℕ, ◌<◌, ◌==◌, bit_and, bit_or, Bool, true, false, arith, if◌then◌else◌}
use vmrp_rust.Word.{IsU32, add32, sub32, not32}
use vmrp_rust.Word.Bounds.{bit_and-IsU32, bit_or-IsU32}
use vmrp_rust.Cpu.Cpsr.{arm, thumb, Cpsr, update_nzcv_add, update_nzcv_sub, carry}
use vmrp_rust.Cpu.Cpsr.Compare.{update_nzcv_add-IsU32, update_nzcv_sub-IsU32}
use vmrp_rust.Cpu.Condition.{Condition, thumb_condition_passed}
use vmrp_rust.Cpu.Decode.{RegisterShift, ThumbOperand, ThumbAluOp, ThumbHiOp}
use vmrp_rust.Cpu.Safety.{
  MemoryInvariant, Safely, Done, Safely-bind, Safely-then, Safely-pure, Safely-if, reg-Safely,
  cpsr-Safely, change_cpsr-Safely, set_execution_mode-Safely,
}
use vmrp_rust.Cpu.Safety.Common.{
  write_reg-Safely, advance-Safely, exchange-Safely, IsShift, apply_register_shift-Safely,
}
use vmrp_rust.Cpu.Execute.Common.{advance, write_reg}
use vmrp_rust.Cpu.Safety.DataProcessing.{
  add32-IsU32, sub32-IsU32, not32-IsU32, update_nz-Safely, update_nzcv_sub-Safely,
  logical_flags-Safely,
}
use vmrp_rust.Cpu.Safety.Branch.{offset32-IsU32}
use vmrp_rust.Cpu.Execute.ThumbAlu.{
  thumb_operand, execute_thumb_add_sub, execute_thumb_adjust_sp, thumb_alu,
  execute_thumb_alu_register, execute_thumb_shift_immediate, execute_thumb_cmp_immediate,
  execute_thumb_long_branch_prefix, execute_thumb_long_branch_suffix, execute_thumb_branch,
  execute_thumb_conditional_branch, reg_or_pc4, write_hi, thumb_hi, execute_thumb_hi_register_op,
  execute_thumb_load_address, execute_thumb_sub_immediate, execute_thumb_add_immediate,
  execute_thumb_mov_immediate,
}

abbrev pub IsOperand : ThumbOperand → Type 0
IsOperand (ThumbOperand.immediate value) = IsU32 value
IsOperand (ThumbOperand.register index) = index < 16

sum_or_difference-IsU32 : (b : Bool) (x y : ℕ) → IsU32 (if b then sub32 x y else add32 x y)
sum_or_difference-IsU32 true x y = sub32-IsU32 x y
sum_or_difference-IsU32 false x y = add32-IsU32 x y

nzcv-IsU32 :
    (b : Bool) (x y z : ℕ) (r : Cpsr)
    → IsU32 r.bits
    → IsU32 (if b then update_nzcv_sub r x y z else update_nzcv_add r x y z).bits
nzcv-IsU32 true x y z r h = update_nzcv_sub-IsU32 r h x y z
nzcv-IsU32 false x y z r h = update_nzcv_add-IsU32 r h x y z

chosen-IsU32 : (b : Bool) (x y : ℕ) → IsU32 x → IsU32 y → IsU32 (if b then x else y)
chosen-IsU32 true x y p q = p
chosen-IsU32 false x y p q = q

align4-IsU32 : (x : ℕ) → IsU32 x → IsU32 (bit_and x (not32 3))
align4-IsU32 x p = bit_and-IsU32 x (not32 3) p (not32-IsU32 3)

align2-IsU32 : (x : ℕ) → IsU32 x → IsU32 (bit_and x (not32 1))
align2-IsU32 x p = bit_and-IsU32 x (not32 1) p (not32-IsU32 1)

module _ {M : Type 0} ⦃inv : MemoryInvariant M⦄ (pc : ℕ) where
  next-Safely : Safely {M = M} Done (advance (add32 pc 2))
  next-Safely = advance-Safely _ (add32-IsU32 pc 2)

  link-Safely : Safely {M = M} Done (write_reg 14 (bit_or (add32 pc 2) 1))
  link-Safely =
      write_reg-Safely 14 _ (omega arith)
        (bit_or-IsU32 (add32 pc 2) 1 (add32-IsU32 pc 2) (omega arith))

  thumb_operand-Safely :
      (operand : ThumbOperand) → IsOperand operand → Safely {M = M} IsU32 (thumb_operand operand)
  unfolding thumb_operand
  thumb_operand-Safely (ThumbOperand.immediate value) h = Safely-pure value h
  thumb_operand-Safely (ThumbOperand.register index) h = reg-Safely index h

  pub execute_thumb_add_sub-Safely :
      (sub : Bool) (rd rs : ℕ) (operand : ThumbOperand)
      → rd < 16
      → rs < 16
      → IsOperand operand
      → Safely {M = M} Done (execute_thumb_add_sub pc sub rd rs operand)
  unfolding execute_thumb_add_sub
  execute_thumb_add_sub-Safely sub rd rs operand hd hs ho = Safely-bind (reg-Safely rs hs) λ left _.
      Safely-bind (thumb_operand-Safely operand ho) λ right _.
        Safely-then (write_reg-Safely rd _ hd (sum_or_difference-IsU32 sub left right))
          (Safely-then (change_cpsr-Safely _ (nzcv-IsU32 sub left right _)) next-Safely)

  pub execute_thumb_adjust_sp-Safely :
      (subtract : Bool) (immediate : ℕ)
      → Safely {M = M} Done (execute_thumb_adjust_sp pc subtract immediate)
  unfolding execute_thumb_adjust_sp
  execute_thumb_adjust_sp-Safely subtract immediate =
      Safely-bind (reg-Safely 13 (omega arith)) λ sp _.
        Safely-then
          (write_reg-Safely 13 _ (omega arith) (sum_or_difference-IsU32 subtract sp immediate))
          next-Safely

  thumb_alu-Safely :
      (op : ThumbAluOp) (rd left right : ℕ)
      → rd < 16
      → IsU32 left
      → IsU32 right
      → Safely {M = M} Done (thumb_alu op rd left right)
  unfolding thumb_alu
  thumb_alu-Safely ThumbAluOp.cmp rd left right h p q = update_nzcv_sub-Safely left right _
  thumb_alu-Safely ThumbAluOp.orr rd left right h p q =
      Safely-then (write_reg-Safely rd _ h (bit_or-IsU32 left right p q)) (update_nz-Safely _)
  thumb_alu-Safely ThumbAluOp.mvn rd left right h p q =
      Safely-then (write_reg-Safely rd _ h (not32-IsU32 right)) (update_nz-Safely _)

  pub execute_thumb_alu_register-Safely :
      (op : ThumbAluOp) (rd rs : ℕ)
      → rd < 16
      → rs < 16
      → Safely {M = M} Done (execute_thumb_alu_register pc op rd rs)
  unfolding execute_thumb_alu_register
  execute_thumb_alu_register-Safely op rd rs hd hs = Safely-bind (reg-Safely rd hd) λ left p.
      Safely-bind (reg-Safely rs hs)
        λ right q. Safely-then (thumb_alu-Safely op rd left right hd p q) next-Safely

  pub execute_thumb_shift_immediate-Safely :
      (rd rs : ℕ) (shift : RegisterShift)
      → rd < 16
      → rs < 16
      → IsShift shift
      → Safely {M = M} Done (execute_thumb_shift_immediate pc rd rs shift)
  unfolding execute_thumb_shift_immediate
  execute_thumb_shift_immediate-Safely rd rs shift hd hs hi =
      Safely-bind (reg-Safely rs hs) λ value p. Safely-bind cpsr-Safely λ status _.
        Safely-bind (apply_register_shift-Safely value p shift (carry status) hi) λ out q.
          Safely-then (write_reg-Safely rd out.0 hd q)
            (Safely-then (logical_flags-Safely out.0 out.1) next-Safely)

  pub execute_thumb_cmp_immediate-Safely :
      (rn immediate : ℕ)
      → rn < 16
      → Safely {M = M} Done (execute_thumb_cmp_immediate pc rn immediate)
  unfolding execute_thumb_cmp_immediate
  execute_thumb_cmp_immediate-Safely rn immediate h =
      Safely-bind (reg-Safely rn h)
        λ left _. Safely-then (update_nzcv_sub-Safely left immediate _) next-Safely

  pub execute_thumb_long_branch_prefix-Safely :
      (offset : ℕ) → Safely {M = M} Done (execute_thumb_long_branch_prefix pc offset)
  unfolding execute_thumb_long_branch_prefix
  execute_thumb_long_branch_prefix-Safely offset =
      Safely-then (write_reg-Safely 14 _ (omega arith) (offset32-IsU32 (add32 pc 4) 0 offset))
        next-Safely

  pub execute_thumb_long_branch_suffix-Safely :
      (exchanges : Bool) (offset : ℕ)
      → Safely {M = M} Done (execute_thumb_long_branch_suffix pc exchanges offset)
  unfolding execute_thumb_long_branch_suffix
  execute_thumb_long_branch_suffix-Safely exchanges offset =
      Safely-bind (reg-Safely 14 (omega arith)) λ lr _. Safely-then link-Safely (
        Safely-then (set_execution_mode-Safely (if exchanges then arm else thumb)) (
          advance-Safely _ (
            chosen-IsU32 exchanges _ _ (align4-IsU32 _ (add32-IsU32 lr offset))
              (align2-IsU32 _ (add32-IsU32 lr offset)))))

  pub execute_thumb_branch-Safely :
      (offset : ℕ) → Safely {M = M} Done (execute_thumb_branch pc offset)
  unfolding execute_thumb_branch
  execute_thumb_branch-Safely offset = advance-Safely _ (offset32-IsU32 pc 4 offset)

  pub execute_thumb_conditional_branch-Safely :
      (condition : Condition) (offset : ℕ)
      → Safely {M = M} Done (execute_thumb_conditional_branch pc condition offset)
  unfolding execute_thumb_conditional_branch
  execute_thumb_conditional_branch-Safely condition offset = Safely-bind cpsr-Safely λ status _.
      advance-Safely _ (
        chosen-IsU32 (thumb_condition_passed status condition) _ _ (offset32-IsU32 pc 4 offset)
          (add32-IsU32 pc 2))

  reg_or_pc4-Safely : (index : ℕ) → index < 16 → Safely {M = M} IsU32 (reg_or_pc4 pc index)
  unfolding reg_or_pc4
  reg_or_pc4-Safely index h =
      Safely-if (index == 15) (Safely-pure _ (add32-IsU32 pc 4)) (reg-Safely index h)

  write_hi-Safely :
      (rd result : ℕ) → rd < 16 → IsU32 result → Safely {M = M} Done (write_hi pc rd result)
  unfolding write_hi
  write_hi-Safely rd result h p =
      Safely-if (rd == 15) (advance-Safely _ (align2-IsU32 result p))
        (Safely-then (write_reg-Safely rd result h p) next-Safely)

  thumb_hi-Safely :
      (op : ThumbHiOp) (rd left right : ℕ)
      → rd < 16
      → IsU32 right
      → Safely {M = M} Done (thumb_hi pc op rd left right)
  unfolding thumb_hi
  thumb_hi-Safely ThumbHiOp.add rd left right h q = write_hi-Safely rd _ h (add32-IsU32 left right)
  thumb_hi-Safely ThumbHiOp.cmp rd left right h q =
      Safely-then (update_nzcv_sub-Safely left right _) next-Safely
  thumb_hi-Safely ThumbHiOp.mov rd left right h q = write_hi-Safely rd right h q
  thumb_hi-Safely ThumbHiOp.bx rd left right h q = exchange-Safely right q
  thumb_hi-Safely ThumbHiOp.blx rd left right h q =
      Safely-then link-Safely
        (Safely-then (set_execution_mode-Safely arm) (advance-Safely _ (align4-IsU32 right q)))

  pub execute_thumb_hi_register_op-Safely :
      (op : ThumbHiOp) (rd rs : ℕ)
      → rd < 16
      → rs < 16
      → Safely {M = M} Done (execute_thumb_hi_register_op pc op rd rs)
  unfolding execute_thumb_hi_register_op
  execute_thumb_hi_register_op-Safely op rd rs hd hs =
      Safely-bind (reg_or_pc4-Safely rs hs) λ right q.
        Safely-bind (reg_or_pc4-Safely rd hd) λ left _. thumb_hi-Safely op rd left right hd q

  pub execute_thumb_load_address-Safely :
      (from_sp : Bool) (rd offset : ℕ)
      → rd < 16
      → Safely {M = M} Done (execute_thumb_load_address pc from_sp rd offset)
  unfolding execute_thumb_load_address
  execute_thumb_load_address-Safely from_sp rd offset h =
      Safely-bind {Q = IsU32}
        (Safely-if from_sp (reg-Safely 13 (omega arith))
          (Safely-pure _ (align4-IsU32 (add32 pc 4) (add32-IsU32 pc 4))))
        λ base _. Safely-then (write_reg-Safely rd _ h (add32-IsU32 base offset)) next-Safely

  pub execute_thumb_sub_immediate-Safely :
      (rd immediate : ℕ)
      → rd < 16
      → Safely {M = M} Done (execute_thumb_sub_immediate pc rd immediate)
  unfolding execute_thumb_sub_immediate
  execute_thumb_sub_immediate-Safely rd immediate h = Safely-bind (reg-Safely rd h) λ left _.
      Safely-then (write_reg-Safely rd _ h (sub32-IsU32 left immediate))
        (Safely-then (update_nzcv_sub-Safely left immediate _) next-Safely)

  pub execute_thumb_add_immediate-Safely :
      (rd immediate : ℕ)
      → rd < 16
      → Safely {M = M} Done (execute_thumb_add_immediate pc rd immediate)
  unfolding execute_thumb_add_immediate
  execute_thumb_add_immediate-Safely rd immediate h = Safely-bind (reg-Safely rd h) λ left _.
      Safely-then (write_reg-Safely rd _ h (add32-IsU32 left immediate))
        (Safely-then (update_nz-Safely _) next-Safely)

  pub execute_thumb_mov_immediate-Safely :
      (rd immediate : ℕ)
      → rd < 16
      → IsU32 immediate
      → Safely {M = M} Done (execute_thumb_mov_immediate pc rd immediate)
  unfolding execute_thumb_mov_immediate
  execute_thumb_mov_immediate-Safely rd immediate h p =
      Safely-then (write_reg-Safely rd immediate h p)
        (Safely-then (update_nz-Safely immediate) next-Safely)
