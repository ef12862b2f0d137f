-- ===== src/Cpu/Safety/Decoded/Ranges.antt =====
-- The ranges of every number in the instructions that the decoders of
-- crates/vmrp-cpu/src/decode/{arm,thumb}.rs make, from the widths of the fields of the opcodes.
use vmrp_rust.Prelude.{ℕ, ◌-◌, ◌%◌, ◌^◌, ◌≤◌, ◌<◌, ◌≡◌, ◌⊎◌}
use vmrp_rust.Word.{IsU32}
use vmrp_rust.Cpu.Decode.{
  RegisterShift, ThumbOperand, DecodedInstruction, block_transfer, branch, branch_exchange,
  branch_link_exchange_immediate, data_processing_immediate, data_processing_register, multiply,
  multiply_long, single_data_transfer_immediate, single_data_transfer_register,
  halfword_transfer_immediate, halfword_transfer_register, thumb_add_immediate, thumb_add_sub,
  thumb_adjust_sp, thumb_alu_register, thumb_branch, thumb_cmp_immediate, thumb_conditional_branch,
  thumb_shift_immediate, thumb_hi_register_op, thumb_literal_load, thumb_load_address,
  thumb_load_store_register_offset, thumb_load_store_multiple, thumb_load_store_sp_relative,
  thumb_load_store_byte_immediate, thumb_load_store_word_immediate, thumb_long_branch_prefix,
  thumb_long_branch_suffix, thumb_mov_immediate, thumb_pop, thumb_push, thumb_sub_immediate,
  unknown,
}

-- The bit pattern of an i32 from -bound to bound - 1 that is a multiple of the unit.
abbrev pub IsOffset : ℕ → ℕ → ℕ → Type 0
IsOffset unit bound n = (n % unit ≡ 0) × ((n < bound) ⊎ ((2 ^ 32 - bound ≤ n) × (n < 2 ^ 32)))

-- A number below the bound that is a multiple of 4.
abbrev pub IsScaled : ℕ → ℕ → Type 0
IsScaled bound n = (n % 4 ≡ 0) × (n < bound)

-- An amount of 5 bits, where 0 stands for 32 in a shift to the right.
abbrev pub IsAmount : RegisterShift → Type 0
IsAmount (RegisterShift.lsl n) = n < 32
IsAmount (RegisterShift.lsl_register rs) = rs < 16
IsAmount (RegisterShift.lsr n) = (0 < n) × (n ≤ 32)
IsAmount (RegisterShift.lsr_register rs) = rs < 16
IsAmount (RegisterShift.asr n) = (0 < n) × (n ≤ 32)
IsAmount (RegisterShift.asr_register rs) = rs < 16
IsAmount (RegisterShift.ror n) = n < 32
IsAmount (RegisterShift.ror_register rs) = rs < 16

-- Three bits, for an immediate or for a low register.
abbrev pub IsSmall : ThumbOperand → Type 0
IsSmall (ThumbOperand.immediate value) = value < 8
IsSmall (ThumbOperand.register index) = index < 8

abbrev pub IsInRange : DecodedInstruction → Type 0
IsInRange (block_transfer load pre_index add_offset write_back base register_mask) =
    (base < 16) × (register_mask < 2 ^ 16)
IsInRange (branch condition link offset) = IsOffset 4 (2 ^ 25) offset
IsInRange (branch_exchange link register) = register < 16
IsInRange (branch_link_exchange_immediate offset) = IsOffset 2 (2 ^ 25) offset
IsInRange (data_processing_immediate op set_flags rn rd immediate) =
    (rn < 16) × (rd < 16) × IsU32 immediate
IsInRange (data_processing_register op set_flags rn rd rm shift) =
    (rn < 16) × (rd < 16) × (rm < 16) × IsAmount shift
IsInRange (multiply accumulate set_flags rd rn rm rs) =
    (rd < 16) × (rn < 16) × (rm < 16) × (rs < 16)
IsInRange (multiply_long signed accumulate set_flags rd_hi rd_lo rm rs) =
    (rd_hi < 16) × (rd_lo < 16) × (rm < 16) × (rs < 16)
IsInRange
      (single_data_transfer_immediate load byte base rd offset add_offset pre_index write_back) =
    (base < 16) × (rd < 16) × (offset < 2 ^ 12)
IsInRange
      (single_data_transfer_register load byte base rd rm shift add_offset pre_index write_back) =
    (base < 16) × (rd < 16) × (rm < 16) × IsAmount shift
IsInRange
      (halfword_transfer_immediate load signed halfword base rd offset add_offset pre_index
        write_back) =
    (base < 16) × (rd < 16) × (offset < 2 ^ 8)
IsInRange
      (halfword_transfer_register load signed halfword base rd rm add_offset pre_index write_back) =
    (base < 16) × (rd < 16) × (rm < 16)
IsInRange (thumb_add_immediate rd immediate) = (rd < 8) × (immediate < 256)
IsInRange (thumb_add_sub sub rd rs operand) = (rd < 8) × (rs < 8) × IsSmall operand
IsInRange (thumb_adjust_sp subtract immediate) = IsScaled 512 immediate
IsInRange (thumb_alu_register op rd rs) = (rd < 8) × (rs < 8)
IsInRange (thumb_branch offset) = IsOffset 2 (2 ^ 11) offset
IsInRange (thumb_cmp_immediate rn immediate) = (rn < 8) × (immediate < 256)
IsInRange (thumb_conditional_branch condition offset) = IsOffset 2 (2 ^ 8) offset
IsInRange (thumb_shift_immediate rd rs shift) = (rd < 8) × (rs < 8) × IsAmount shift
IsInRange (thumb_hi_register_op op rd rs) = (rd < 16) × (rs < 16)
IsInRange (thumb_literal_load rd offset) = (rd < 8) × IsScaled 1024 offset
IsInRange (thumb_load_address sp rd offset) = (rd < 8) × IsScaled 1024 offset
IsInRange (thumb_load_store_register_offset load byte offset base rd) =
    (offset < 8) × (base < 8) × (rd < 8)
IsInRange (thumb_load_store_multiple load base register_mask) = (base < 8) × (register_mask < 256)
IsInRange (thumb_load_store_sp_relative load rd offset) = (rd < 8) × IsScaled 1024 offset
IsInRange (thumb_load_store_byte_immediate load base rd offset) =
    (base < 8) × (rd < 8) × (offset < 32)
IsInRange (thumb_load_store_word_immediate load base rd offset) =
    (base < 8) × (rd < 8) × IsScaled 128 offset
IsInRange (thumb_long_branch_prefix offset) = IsOffset (2 ^ 12) (2 ^ 22) offset
IsInRange (thumb_long_branch_suffix exchange offset) = (offset % 2 ≡ 0) × (offset < 2 ^ 12)
IsInRange (thumb_mov_immediate rd immediate) = (rd < 8) × (immediate < 256)
IsInRange (thumb_pop register_mask include_pc) = register_mask < 256
IsInRange (thumb_push register_mask include_lr) = register_mask < 256
IsInRange (thumb_sub_immediate rd immediate) = (rd < 8) × (immediate < 256)
IsInRange (unknown raw) = Unit {0}
