-- ===== src/Cpu/Execute.antt =====
-- crates/vmrp-cpu/src/execute.rs: the condition check and the dispatch over instructions.
pub mod Common
pub mod Shifts
pub mod Exchange
pub mod Arithmetic
pub mod LongBranch
pub mod DataProcessing
pub mod Transfer
pub mod Branch
pub mod ThumbAlu
pub mod ThumbTransfer
use vmrp_rust.Prelude.{ℕ, ◌/◌, ◌%◌, ◌^◌, Bool, true, false, not, ◌&&◌, if◌then◌else◌}
use vmrp_rust.Word.{add32, field}
use vmrp_rust.Cpu.Cpsr.{ExecutionMode, is_arm}
use vmrp_rust.Cpu.Condition.{arm_condition_passed}
use vmrp_rust.Cpu.Memory.{MemoryBus}
use vmrp_rust.Cpu.Decode.{
  DecodedInstruction, block_transfer, branch, branch_exchange, branch_link_exchange_immediate,
  data_processing_immediate, data_processing_register, multiply, multiply_long,
  single_data_transfer_immediate, single_data_transfer_register, halfword_transfer_immediate,
  halfword_transfer_register, thumb_add_immediate, thumb_add_sub, thumb_adjust_sp,
  thumb_alu_register, thumb_branch, thumb_cmp_immediate, thumb_conditional_branch,
  thumb_shift_immediate, thumb_hi_register_op, thumb_literal_load, thumb_load_address,
  thumb_load_store_register_offset, thumb_load_store_multiple, thumb_load_store_sp_relative,
  thumb_load_store_byte_immediate, thumb_load_store_word_immediate, thumb_long_branch_prefix,
  thumb_long_branch_suffix, thumb_mov_immediate, thumb_pop, thumb_push, thumb_sub_immediate,
  unknown,
}
use vmrp_rust.Cpu.Machine.{
  Machine, Outcome, StepTrace, Exec, pure, ◌>>=◌, ◌>>◌, fail, unimplemented_instruction, cpsr, ok,
}
use Common.{advance}
use DataProcessing.{
  execute_data_processing_register, execute_data_processing_immediate, execute_multiply,
  execute_multiply_long,
}
use Transfer.{
  execute_arm_single_data_transfer, execute_single_data_transfer_register,
  execute_arm_halfword_transfer, execute_halfword_transfer_register, execute_block_transfer,
}
use Branch.{execute_branch, execute_branch_link_exchange_immediate, execute_branch_exchange}
use ThumbAlu.{
  execute_thumb_add_sub, execute_thumb_adjust_sp, execute_thumb_alu_register,
  execute_thumb_shift_immediate, execute_thumb_cmp_immediate, execute_thumb_long_branch_prefix,
  execute_thumb_long_branch_suffix, execute_thumb_branch, execute_thumb_conditional_branch,
  execute_thumb_hi_register_op, execute_thumb_load_address, execute_thumb_sub_immediate,
  execute_thumb_add_immediate, execute_thumb_mov_immediate,
}
use ThumbTransfer.{
  execute_thumb_literal_load, execute_thumb_load_store_register_offset,
  execute_thumb_load_store_sp_relative, execute_thumb_load_store_immediate,
  execute_thumb_load_store_multiple, execute_thumb_pop, execute_thumb_push,
}

-- `matches!(instruction, DecodedInstruction::BranchLinkExchangeImmediate { .. })`.
unfoldable pub is_unconditional : DecodedInstruction → Bool
is_unconditional (branch_link_exchange_immediate offset) = true
is_unconditional instruction = false

module _ {M : Type 0} ⦃bus : MemoryBus M⦄ where
  -- The `match instruction`.
  unfoldable pub perform : DecodedInstruction → ℕ → ExecutionMode → ℕ → Exec M (Unit {0})
  unfolding execute_block_transfer fail
  perform (block_transfer load pre_index add_offset write_back base register_mask) pc mode opcode =
      execute_block_transfer pc load pre_index add_offset write_back base register_mask
  perform (branch condition link offset) pc mode opcode = execute_branch pc link offset
  perform (branch_exchange link register) pc mode opcode =
      execute_branch_exchange pc mode link register
  perform (branch_link_exchange_immediate offset) pc mode opcode =
      execute_branch_link_exchange_immediate pc offset
  perform (data_processing_immediate op set_flags rn rd immediate) pc mode opcode =
      execute_data_processing_immediate op set_flags rn rd immediate pc opcode
  perform (data_processing_register op set_flags rn rd rm shift) pc mode opcode =
      execute_data_processing_register op set_flags rn rd rm shift pc mode
  perform (multiply accumulate set_flags rd rn rm rs) pc mode opcode =
      execute_multiply accumulate set_flags rd rn rm rs pc
  perform (multiply_long signed accumulate set_flags rd_hi rd_lo rm rs) pc mode opcode =
      execute_multiply_long signed accumulate set_flags rd_hi rd_lo rm rs pc
  perform (single_data_transfer_immediate load byte base rd offset add_offset pre_index write_back)
        pc mode opcode =
      execute_arm_single_data_transfer pc mode load byte base rd offset add_offset pre_index
        write_back
  perform (single_data_transfer_register load byte base rd rm shift add_offset pre_index write_back)
        pc mode opcode =
      execute_single_data_transfer_register pc mode load byte base rd rm shift add_offset pre_index
        write_back
  perform
        (halfword_transfer_immediate load signed halfword base rd offset add_offset pre_index
          write_back)
        pc mode opcode =
      execute_arm_halfword_transfer pc mode load signed halfword base rd offset add_offset pre_index
        write_back
  perform
        (halfword_transfer_register load signed halfword base rd rm add_offset pre_index write_back)
        pc mode opcode =
      execute_halfword_transfer_register pc mode load signed halfword base rd rm add_offset
        pre_index write_back
  perform (thumb_add_immediate rd immediate) pc mode opcode =
      execute_thumb_add_immediate pc rd immediate
  perform (thumb_add_sub sub rd rs operand) pc mode opcode =
      execute_thumb_add_sub pc sub rd rs operand
  perform (thumb_adjust_sp subtract immediate) pc mode opcode =
      execute_thumb_adjust_sp pc subtract immediate
  perform (thumb_alu_register op rd rs) pc mode opcode = execute_thumb_alu_register pc op rd rs
  perform (thumb_branch offset) pc mode opcode = execute_thumb_branch pc offset
  perform (thumb_cmp_immediate rn immediate) pc mode opcode =
      execute_thumb_cmp_immediate pc rn immediate
  perform (thumb_conditional_branch condition offset) pc mode opcode =
      execute_thumb_conditional_branch pc condition offset
  perform (thumb_shift_immediate rd rs shift) pc mode opcode =
      execute_thumb_shift_immediate pc rd rs shift
  perform (thumb_hi_register_op op rd rs) pc mode opcode = execute_thumb_hi_register_op pc op rd rs
  perform (thumb_literal_load rd offset) pc mode opcode = execute_thumb_literal_load pc rd offset
  perform (thumb_load_address sp rd offset) pc mode opcode =
      execute_thumb_load_address pc sp rd offset
  perform (thumb_load_store_register_offset load byte offset base rd) pc mode opcode =
      execute_thumb_load_store_register_offset pc load byte offset base rd
  perform (thumb_load_store_multiple load base register_mask) pc mode opcode =
      execute_thumb_load_store_multiple pc load base register_mask
  perform (thumb_load_store_sp_relative load rd offset) pc mode opcode =
      execute_thumb_load_store_sp_relative pc load rd offset
  perform (thumb_load_store_byte_immediate load base rd offset) pc mode opcode =
      execute_thumb_load_store_immediate pc true load base rd offset
  perform (thumb_load_store_word_immediate load base rd offset) pc mode opcode =
      execute_thumb_load_store_immediate pc false load base rd offset
  perform (thumb_long_branch_prefix offset) pc mode opcode =
      execute_thumb_long_branch_prefix pc offset
  perform (thumb_long_branch_suffix exchange offset) pc mode opcode =
      execute_thumb_long_branch_suffix pc exchange offset
  perform (thumb_mov_immediate rd immediate) pc mode opcode =
      execute_thumb_mov_immediate pc rd immediate
  perform (thumb_pop register_mask include_pc) pc mode opcode =
      execute_thumb_pop pc register_mask include_pc
  perform (thumb_push register_mask include_lr) pc mode opcode =
      execute_thumb_push pc register_mask include_lr
  perform (thumb_sub_immediate rd immediate) pc mode opcode =
      execute_thumb_sub_immediate pc rd immediate
  perform (unknown raw) pc mode opcode = fail (unimplemented_instruction pc mode raw)

  -- The condition of an ARM instruction, checked before the match.
  unfoldable pub perform_conditional :
      DecodedInstruction → ℕ → ExecutionMode → ℕ → Exec M (Unit {0})
  unfolding is_unconditional perform cpsr arm_condition_passed
  perform_conditional instruction pc mode opcode = do
    status ← cpsr
    if is_arm mode
          && not (is_unconditional instruction)
          && not (arm_condition_passed status (field opcode 28 4))
        then advance (add32 pc 4)
        else perform instruction pc mode opcode

  -- The trace holds the register writes of this instruction: the machine starts with none.
  unfoldable pub trace_of : ℕ → ExecutionMode → ℕ → Exec M StepTrace
  trace_of pc mode opcode s = (
    ok (record { pc = pc; mode = mode; opcode = opcode; register_writes = s.register_writes }),
    s,
  )

  unfoldable pub execute_instruction : DecodedInstruction → ℕ → ExecutionMode → ℕ → Exec M StepTrace
  unfolding perform_conditional trace_of
  execute_instruction instruction pc mode opcode = do
    perform_conditional instruction pc mode opcode
    trace_of pc mode opcode
