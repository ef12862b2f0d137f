-- ===== src/Cpu/Decode.antt =====
-- crates/vmrp-cpu/src/decode/mod.rs: the decoded instructions. Constructors take their fields in
-- the order of the source.
use vmrp_rust.Prelude.{ℕ, Bool}
use vmrp_rust.Cpu.Condition.{Condition}

pub data DataProcessingOp : Type 0 where
  mov and eor orr add sub cmp cmn mvn bic tst rsb adc : DataProcessingOp

pub data RegisterShift : Type 0 where
  lsl lsl_register lsr lsr_register asr asr_register ror ror_register : ℕ → RegisterShift

pub data ThumbOperand : Type 0 where
  immediate register : ℕ → ThumbOperand

pub data ThumbAluOp : Type 0 where
  cmp orr mvn : ThumbAluOp

pub data ThumbHiOp : Type 0 where
  add cmp mov bx blx : ThumbHiOp

pub data DecodedInstruction : Type 0 where
  block_transfer :
      (load pre_index add_offset write_back : Bool) (base register_mask : ℕ) → DecodedInstruction
  branch : (condition : Condition) (link : Bool) (offset : ℕ) → DecodedInstruction
  branch_exchange : (link : Bool) (register : ℕ) → DecodedInstruction
  branch_link_exchange_immediate : (offset : ℕ) → DecodedInstruction
  data_processing_immediate :
      (op : DataProcessingOp) (set_flags : Bool) (rn rd immediate : ℕ) → DecodedInstruction
  data_processing_register :
      (op : DataProcessingOp) (set_flags : Bool) (rn rd rm : ℕ) (shift : RegisterShift)
      → DecodedInstruction
  multiply : (accumulate set_flags : Bool) (rd rn rm rs : ℕ) → DecodedInstruction
  multiply_long : (signed accumulate set_flags : Bool) (rd_hi rd_lo rm rs : ℕ) → DecodedInstruction
  single_data_transfer_immediate :
      (load byte : Bool) (base rd offset : ℕ) (add_offset pre_index write_back : Bool)
      → DecodedInstruction
  single_data_transfer_register :
      (load byte : Bool) (base rd rm : ℕ) (shift : RegisterShift)
      (add_offset pre_index write_back : Bool)
      → DecodedInstruction
  halfword_transfer_immediate :
      (load signed halfword : Bool) (base rd offset : ℕ) (add_offset pre_index write_back : Bool)
      → DecodedInstruction
  halfword_transfer_register :
      (load signed halfword : Bool) (base rd rm : ℕ) (add_offset pre_index write_back : Bool)
      → DecodedInstruction
  thumb_add_immediate : (rd immediate : ℕ) → DecodedInstruction
  thumb_add_sub : (sub : Bool) (rd rs : ℕ) (operand : ThumbOperand) → DecodedInstruction
  thumb_adjust_sp : (subtract : Bool) (immediate : ℕ) → DecodedInstruction
  thumb_alu_register : (op : ThumbAluOp) (rd rs : ℕ) → DecodedInstruction
  thumb_branch : (offset : ℕ) → DecodedInstruction
  thumb_cmp_immediate : (rn immediate : ℕ) → DecodedInstruction
  thumb_conditional_branch : (condition : Condition) (offset : ℕ) → DecodedInstruction
  thumb_shift_immediate : (rd rs : ℕ) (shift : RegisterShift) → DecodedInstruction
  thumb_hi_register_op : (op : ThumbHiOp) (rd rs : ℕ) → DecodedInstruction
  thumb_literal_load : (rd offset : ℕ) → DecodedInstruction
  thumb_load_address : (sp : Bool) (rd offset : ℕ) → DecodedInstruction
  thumb_load_store_register_offset : (load byte : Bool) (offset base rd : ℕ) → DecodedInstruction
  thumb_load_store_multiple : (load : Bool) (base register_mask : ℕ) → DecodedInstruction
  thumb_load_store_sp_relative : (load : Bool) (rd offset : ℕ) → DecodedInstruction
  thumb_load_store_byte_immediate : (load : Bool) (base rd offset : ℕ) → DecodedInstruction
  thumb_load_store_word_immediate : (load : Bool) (base rd offset : ℕ) → DecodedInstruction
  thumb_long_branch_prefix : (offset : ℕ) → DecodedInstruction
  thumb_long_branch_suffix : (exchange : Bool) (offset : ℕ) → DecodedInstruction
  thumb_mov_immediate : (rd immediate : ℕ) → DecodedInstruction
  thumb_pop : (register_mask : ℕ) (include_pc : Bool) → DecodedInstruction
  thumb_push : (register_mask : ℕ) (include_lr : Bool) → DecodedInstruction
  thumb_sub_immediate : (rd immediate : ℕ) → DecodedInstruction
  unknown : (opcode : ℕ) → DecodedInstruction
