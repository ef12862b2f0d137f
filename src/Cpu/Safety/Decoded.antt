-- ===== src/Cpu/Safety/Decoded.antt =====
-- What the decoders of crates/vmrp-cpu/src/decode/{arm,thumb}.rs promise of an instruction: register
-- indices below 16, immediates that fit a u32, and no shift to the right by 0.
pub mod Arm
pub mod Thumb
pub mod Ranges
pub mod ArmRanges
pub mod ThumbRanges
use vmrp_rust.Prelude.{ℕ, ◌<◌, ◌^◌}
use vmrp_rust.Word.{IsU32}
use vmrp_rust.Cpu.Decode.{
  DecodedInstruction, block_transfer, branch, branch_exchange, branch_link_exchange_immediate,
  data_processing_immediate, data_processing_register, multiply, multiply_long,
  single_data_transfer_immediate, single_data_transfer_register, halfword_transfer_immediate,
  halfword_transfer_register, thumb_add_immediate, thumb_add_sub, thumb_adjust_sp,
  thumb_alu_register, thumb_branch, thumb_cmp_immediate, thumb_conditional_branch,
  thumb_shift_immediate, thumb_hi_register_op, thumb_literal_load, thumb_load_address,
  thumb_load_store_register_offset, thumb_load_store_multiple, thumb_load_store_sp_relative,
  thumb_load_store_byte_immediate, thumb_load_store_word_immediate, thumb_long_branch_prefix,
  thumb_long_branch_suffix, thumb_mov_immediate, thumb_pop, thumb_push, thumb_sub_immediate,
  unknown,
}
use vmrp_rust.Cpu.Safety.Common.{IsShift}
use vmrp_rust.Cpu.Safety.ThumbAlu.{IsOperand}

abbrev pub IsWellFormed : DecodedInstruction → Type 0
IsWellFormed (block_transfer load pre_index add_offset write_back base register_mask) = base < 16
IsWellFormed (branch condition link offset) = Unit {0}
IsWellFormed (branch_exchange link register) = register < 16
IsWellFormed (branch_link_exchange_immediate offset) = Unit {0}
IsWellFormed (data_processing_immediate op set_flags rn rd immediate) =
    rn < 16 × rd < 16 × IsU32 immediate
IsWellFormed (data_processing_register op set_flags rn rd rm shift) =
    rn < 16 × rd < 16 × rm < 16 × IsShift shift
IsWellFormed (multiply accumulate set_flags rd rn rm rs) = rd < 16 × rn < 16 × rm < 16 × rs < 16
IsWellFormed (multiply_long signed accumulate set_flags rd_hi rd_lo rm rs) =
    rd_hi < 16 × rd_lo < 16 × rm < 16 × rs < 16
IsWellFormed
      (single_data_transfer_immediate load byte base rd offset add_offset pre_index write_back) =
    base < 16 × rd < 16
IsWellFormed
      (single_data_transfer_register load byte base rd rm shift add_offset pre_index write_back) =
    base < 16 × rd < 16 × rm < 16 × IsShift shift
IsWellFormed
      (halfword_transfer_immediate load signed halfword base rd offset add_offset pre_index
        write_back) =
    base < 16 × rd < 16
IsWellFormed
      (halfword_transfer_register load signed halfword base rd rm add_offset pre_index write_back) =
    base < 16 × rd < 16 × rm < 16
IsWellFormed (thumb_add_immediate rd immediate) = rd < 16
IsWellFormed (thumb_add_sub sub rd rs operand) = rd < 16 × rs < 16 × IsOperand operand
IsWellFormed (thumb_adjust_sp subtract immediate) = Unit {0}
IsWellFormed (thumb_alu_register op rd rs) = rd < 16 × rs < 16
IsWellFormed (thumb_branch offset) = Unit {0}
IsWellFormed (thumb_cmp_immediate rn immediate) = rn < 16
IsWellFormed (thumb_conditional_branch condition offset) = Unit {0}
IsWellFormed (thumb_shift_immediate rd rs shift) = rd < 16 × rs < 16 × IsShift shift
IsWellFormed (thumb_hi_register_op op rd rs) = rd < 16 × rs < 16
IsWellFormed (thumb_literal_load rd offset) = rd < 16
IsWellFormed (thumb_load_address sp rd offset) = rd < 16
IsWellFormed (thumb_load_store_register_offset load byte offset base rd) =
    offset < 16 × base < 16 × rd < 16
IsWellFormed (thumb_load_store_multiple load base register_mask) = base < 16
IsWellFormed (thumb_load_store_sp_relative load rd offset) = rd < 16
IsWellFormed (thumb_load_store_byte_immediate load base rd offset) = base < 16 × rd < 16
IsWellFormed (thumb_load_store_word_immediate load base rd offset) = base < 16 × rd < 16
IsWellFormed (thumb_long_branch_prefix offset) = Unit {0}
IsWellFormed (thumb_long_branch_suffix exchange offset) = Unit {0}
IsWellFormed (thumb_mov_immediate rd immediate) = rd < 16 × IsU32 immediate
IsWellFormed (thumb_pop register_mask include_pc) = Unit {0}
IsWellFormed (thumb_push register_mask include_lr) = Unit {0}
IsWellFormed (thumb_sub_immediate rd immediate) = rd < 16
IsWellFormed (unknown raw) = Unit {0}
