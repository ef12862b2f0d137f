-- ===== src/Cpu/Safety/Step.antt =====
-- Execution of crates/vmrp-cpu/src/{execute,cpu}.rs over any bus whose answers fit their width: a
-- step never panics and keeps the state valid.
use vmrp_rust.Prelude.{ℕ, ◌%◌, ◌^◌, true, false, not, ◌&&◌, arith}
use vmrp_rust.Word.{field}
use vmrp_rust.Cpu.Cpsr.{ExecutionMode, arm, thumb, is_arm}
use vmrp_rust.Cpu.Condition.{arm_condition_passed}
use vmrp_rust.Cpu.Memory.{MemoryBus}
use vmrp_rust.Cpu.Decode.{
  DecodedInstruction, block_transfer, branch, branch_exchange, branch_link_exchange_immediate,
  data_processing_immediate, data_processing_register, multiply, multiply_long,
  single_data_transfer_immediate, single_data_transfer_register, halfword_transfer_immediate,
  halfword_transfer_register, thumb_add_immediate, thumb_add_sub, thumb_adjust_sp,
  thumb_alu_register, thumb_branch, thumb_cmp_immediate, thumb_conditional_branch,
  thumb_shift_immediate, thumb_hi_register_op, thumb_literal_load, thumb_load_address,
  thumb_load_store_register_offset, thumb_load_store_multiple, thumb_load_store_sp_relative,
  thumb_load_store_byte_immediate, thumb_load_store_word_immediate, thumb_long_branch_prefix,
  thumb_long_branch_suffix, thumb_mov_immediate, thumb_pop, thumb_push, thumb_sub_immediate,
  unknown,
}
use vmrp_rust.Cpu.Execute.{
  is_unconditional, perform, perform_conditional, trace_of, execute_instruction,
}
use vmrp_rust.Cpu.Safety.{
  MemoryInvariant, Safely, Done, returns, Safely-bind, Safely-then, Safely-if, Safely-fail,
  Safely-pure, Safely-weaken, cpsr-Safely, reg-Safely, ReadsFit, read16-Safely, read32-Safely,
}
use vmrp_rust.Cpu.Safety.Common.{advance-Safely}
use vmrp_rust.Cpu.Safety.Branch.{
  execute_branch-Safely, execute_branch_exchange-Safely,
  execute_branch_link_exchange_immediate-Safely,
}
use vmrp_rust.Cpu.Safety.DataProcessing.{
  add32-IsU32, execute_data_processing_immediate-Safely, execute_data_processing_register-Safely,
  execute_multiply-Safely, execute_multiply_long-Safely,
}
use vmrp_rust.Cpu.Safety.Transfer.{
  execute_arm_single_data_transfer-Safely, execute_single_data_transfer_register-Safely,
  execute_arm_halfword_transfer-Safely, execute_halfword_transfer_register-Safely,
  execute_block_transfer-Safely,
}
use vmrp_rust.Cpu.Safety.ThumbAlu.{
  execute_thumb_add_immediate-Safely, execute_thumb_add_sub-Safely, execute_thumb_adjust_sp-Safely,
  execute_thumb_alu_register-Safely, execute_thumb_branch-Safely,
  execute_thumb_cmp_immediate-Safely, execute_thumb_conditional_branch-Safely,
  execute_thumb_shift_immediate-Safely, execute_thumb_hi_register_op-Safely,
  execute_thumb_load_address-Safely, execute_thumb_long_branch_prefix-Safely,
  execute_thumb_long_branch_suffix-Safely, execute_thumb_mov_immediate-Safely,
  execute_thumb_sub_immediate-Safely,
}
use vmrp_rust.Cpu.Safety.ThumbTransfer.{
  execute_thumb_literal_load-Safely, execute_thumb_load_store_register_offset-Safely,
  execute_thumb_load_store_multiple-Safely, execute_thumb_load_store_sp_relative-Safely,
  execute_thumb_load_store_immediate-Safely, execute_thumb_pop-Safely, execute_thumb_push-Safely,
}
use vmrp_rust.Cpu.Safety.Decoded.{IsWellFormed}
use vmrp_rust.Cpu.Safety.Decoded.Arm.{arm_decode-IsWellFormed}
use vmrp_rust.Cpu.Safety.Decoded.Thumb.{thumb_decode-IsWellFormed}
use vmrp_rust.Cpu.Step.{decode_opcode, read_opcode, mode_now, fetch_opcode, step_machine}

-- Nothing more is said of a result.
abbrev pub Any : {A : Type 0} → A → Type 0
Any a = Unit {0}

module _ {M : Type 0} ⦃inv : MemoryInvariant M⦄ ⦃bus : MemoryBus M⦄ (fit : ReadsFit bus) where
  perform-Safely :
      (instruction : DecodedInstruction) (pc : ℕ) (mode : ExecutionMode) (opcode : ℕ)
      → IsWellFormed instruction
      → Safely {M = M} Done (perform instruction pc mode opcode)
  unfolding perform
  perform-Safely (block_transfer load pre_index add_offset write_back base register_mask) pc mode
        opcode h =
      execute_block_transfer-Safely fit pc load pre_index add_offset write_back base register_mask h
  perform-Safely (branch condition link offset) pc mode opcode h =
      execute_branch-Safely pc link offset
  perform-Safely (branch_exchange link register) pc mode opcode h =
      execute_branch_exchange-Safely pc mode link register h
  perform-Safely (branch_link_exchange_immediate offset) pc mode opcode h =
      execute_branch_link_exchange_immediate-Safely pc offset
  perform-Safely (data_processing_immediate op set_flags rn rd immediate) pc mode opcode
        (hn, hd, hi) =
      execute_data_processing_immediate-Safely op set_flags rn rd immediate pc opcode hn hd hi
  perform-Safely (data_processing_register op set_flags rn rd rm shift) pc mode opcode
        (hn, hd, hm, hs) =
      execute_data_processing_register-Safely op set_flags rn rd rm shift pc mode hn hd hm hs
  perform-Safely (multiply accumulate set_flags rd rn rm rs) pc mode opcode (hd, hn, hm, hs) =
      execute_multiply-Safely accumulate set_flags rd rn rm rs pc hd hn hm hs
  perform-Safely (multiply_long signed accumulate set_flags rd_hi rd_lo rm rs) pc mode opcode
        (hh, hl, hm, hs) =
      execute_multiply_long-Safely signed accumulate set_flags rd_hi rd_lo rm rs pc hh hl hm hs
  perform-Safely
        (single_data_transfer_immediate load byte base rd offset add_offset pre_index write_back) pc
        mode opcode (hb, hd) =
      execute_arm_single_data_transfer-Safely fit pc mode load byte base rd offset add_offset
        pre_index write_back hb hd
  perform-Safely
        (single_data_transfer_register load byte base rd rm shift add_offset pre_index write_back)
        pc mode opcode (hb, hd, hm, hs) =
      execute_single_data_transfer_register-Safely fit pc mode load byte base rd rm shift add_offset
        pre_index write_back hb hd hm hs
  perform-Safely
        (halfword_transfer_immediate load signed halfword base rd offset add_offset pre_index
          write_back)
        pc mode opcode (hb, hd) =
      execute_arm_halfword_transfer-Safely fit pc mode load signed halfword base rd offset
        add_offset pre_index write_back hb hd
  perform-Safely
        (halfword_transfer_register load signed halfword base rd rm add_offset pre_index write_back)
        pc mode opcode (hb, hd, hm) =
      execute_halfword_transfer_register-Safely fit pc mode load signed halfword base rd rm
        add_offset pre_index write_back hb hd hm
  perform-Safely (thumb_add_immediate rd immediate) pc mode opcode h =
      execute_thumb_add_immediate-Safely pc rd immediate h
  perform-Safely (thumb_add_sub sub rd rs operand) pc mode opcode (hd, hs, ho) =
      execute_thumb_add_sub-Safely pc sub rd rs operand hd hs ho
  perform-Safely (thumb_adjust_sp subtract immediate) pc mode opcode h =
      execute_thumb_adjust_sp-Safely pc subtract immediate
  perform-Safely (thumb_alu_register op rd rs) pc mode opcode (hd, hs) =
      execute_thumb_alu_register-Safely pc op rd rs hd hs
  perform-Safely (thumb_branch offset) pc mode opcode h = execute_thumb_branch-Safely pc offset
  perform-Safely (thumb_cmp_immediate rn immediate) pc mode opcode h =
      execute_thumb_cmp_immediate-Safely pc rn immediate h
  perform-Safely (thumb_conditional_branch condition offset) pc mode opcode h =
      execute_thumb_conditional_branch-Safely pc condition offset
  perform-Safely (thumb_shift_immediate rd rs shift) pc mode opcode (hd, hs, hi) =
      execute_thumb_shift_immediate-Safely pc rd rs shift hd hs hi
  perform-Safely (thumb_hi_register_op op rd rs) pc mode opcode (hd, hs) =
      execute_thumb_hi_register_op-Safely pc op rd rs hd hs
  perform-Safely (thumb_literal_load rd offset) pc mode opcode h =
      execute_thumb_literal_load-Safely fit pc rd offset h
  perform-Safely (thumb_load_address sp rd offset) pc mode opcode h =
      execute_thumb_load_address-Safely pc sp rd offset h
  perform-Safely (thumb_load_store_register_offset load byte offset base rd) pc mode opcode
        (ho, hb, hd) =
      execute_thumb_load_store_register_offset-Safely fit pc load byte offset base rd ho hb hd
  perform-Safely (thumb_load_store_multiple load base register_mask) pc mode opcode h =
      execute_thumb_load_store_multiple-Safely fit pc load base register_mask h
  perform-Safely (thumb_load_store_sp_relative load rd offset) pc mode opcode h =
      execute_thumb_load_store_sp_relative-Safely fit pc load rd offset h
  perform-Safely (thumb_load_store_byte_immediate load base rd offset) pc mode opcode (hb, hd) =
      execute_thumb_load_store_immediate-Safely fit pc true load base rd offset hb hd
  perform-Safely (thumb_load_store_word_immediate load base rd offset) pc mode opcode (hb, hd) =
      execute_thumb_load_store_immediate-Safely fit pc false load base rd offset hb hd
  perform-Safely (thumb_long_branch_prefix offset) pc mode opcode h =
      execute_thumb_long_branch_prefix-Safely pc offset
  perform-Safely (thumb_long_branch_suffix exchange offset) pc mode opcode h =
      execute_thumb_long_branch_suffix-Safely pc exchange offset
  perform-Safely (thumb_mov_immediate rd immediate) pc mode opcode (hd, hi) =
      execute_thumb_mov_immediate-Safely pc rd immediate hd hi
  perform-Safely (thumb_pop register_mask include_pc) pc mode opcode h =
      execute_thumb_pop-Safely fit pc register_mask include_pc
  perform-Safely (thumb_push register_mask include_lr) pc mode opcode h =
      execute_thumb_push-Safely fit pc register_mask include_lr
  perform-Safely (thumb_sub_immediate rd immediate) pc mode opcode h =
      execute_thumb_sub_immediate-Safely pc rd immediate h
  perform-Safely (unknown raw) pc mode opcode h = Safely-fail _

  pub execute_instruction-Safely :
      (instruction : DecodedInstruction) (pc : ℕ) (mode : ExecutionMode) (opcode : ℕ)
      → IsWellFormed instruction
      → Safely {M = M} Any (execute_instruction instruction pc mode opcode)
  unfolding execute_instruction perform_conditional trace_of
  execute_instruction-Safely instruction pc mode opcode h =
      Safely-then
        (Safely-bind cpsr-Safely λ status _.
          Safely-if
            (is_arm mode
              && not (is_unconditional instruction)
              && not (arm_condition_passed status (field opcode 28 4)))
            (advance-Safely _ (add32-IsU32 pc 4)) (perform-Safely instruction pc mode opcode h))
        λ s v. returns tt v

  decode_opcode-IsWellFormed :
      (mode : ExecutionMode) (opcode : ℕ) → IsWellFormed (decode_opcode mode opcode)
  unfolding decode_opcode
  decode_opcode-IsWellFormed arm opcode = arm_decode-IsWellFormed opcode
  decode_opcode-IsWellFormed thumb opcode = thumb_decode-IsWellFormed (opcode % 2 ^ 16)

  read_opcode-Safely : (mode : ExecutionMode) (pc : ℕ) → Safely {M = M} Any (read_opcode mode pc)
  unfolding read_opcode
  read_opcode-Safely arm pc = Safely-weaken (read32-Safely fit pc) λ _ _. tt
  read_opcode-Safely thumb pc = Safely-weaken (read16-Safely fit pc) λ _ _. tt

  mode_now-Safely : Safely {M = M} Any mode_now
  unfolding mode_now
  mode_now-Safely s v = returns tt v

  fetch_opcode-Safely : Safely {M = M} Any fetch_opcode
  unfolding fetch_opcode
  fetch_opcode-Safely = Safely-bind (reg-Safely 15 (omega arith)) λ pc _.
      Safely-bind mode_now-Safely λ mode _.
        Safely-bind (read_opcode-Safely mode pc)
          λ opcode _. Safely-pure (record { pc = pc; mode = mode; opcode = opcode }) tt

  pub step_machine-Safely : Safely {M = M} Any step_machine
  unfolding step_machine
  step_machine-Safely = Safely-bind fetch_opcode-Safely λ fetched _.
      execute_instruction-Safely _ fetched.pc fetched.mode fetched.opcode
        (decode_opcode-IsWellFormed fetched.mode fetched.opcode)
