-- ===== src/Cpu/Safety/Decoded/Arm.antt =====
-- The instructions of crates/vmrp-cpu/src/decode/arm.rs are well formed.
use vmrp_rust.Prelude.{
  ℕ, ◌%◌, ◌<◌, Bool, true, false, ◌==◌, arith, Option, none, some, if◌then◌else◌,
}
use vmrp_rust.Word.{field, bit}
use vmrp_rust.Word.Bounds.{rotate_right-IsU32}
use vmrp_rust.Cpu.Decode.{DataProcessingOp, RegisterShift, DecodedInstruction}
use vmrp_rust.Cpu.Arm
use vmrp_rust.Cpu.Arm.{
  decode_halfword_transfer, decode_multiply, decode_multiply_long, decode_block_transfer,
  data_processing_op, immediate_with, decode_data_processing_immediate,
  decode_data_processing_shift, decode_load_store_shift, register_with,
  decode_data_processing_register, decode_single_data_transfer_immediate, transfer_with,
  decode_single_data_transfer_register, decode_branch, decode_blx_immediate, decode_class,
}
use vmrp_rust.Cpu.Safety.Common.{IsShift}
use vmrp_rust.Cpu.Safety.Decoded.{IsWellFormed}

-- A conditional between two instructions.
pub IsWellFormed-if :
    (b : Bool) (x y : DecodedInstruction)
    → IsWellFormed x
    → IsWellFormed y
    → IsWellFormed (if b then x else y)
IsWellFormed-if true x y p q = p
IsWellFormed-if false x y p q = q

-- The shift of an optional one, when there is one.
abbrev IsShift? : Option RegisterShift → Type 0
IsShift? none = Unit {0}
IsShift? (some shift) = IsShift shift

amount_pos : (imm : ℕ) → 0 < (if imm == 0 then 32 else imm)
amount_pos imm = ground arith

module _ (opcode : ℕ) where
  register-bound : (k : ℕ) → field opcode k 4 < 16
  register-bound k = omega arith

  low-bound : opcode % 16 < 16
  low-bound = omega arith

  decode_halfword_transfer-IsWellFormed : IsWellFormed (decode_halfword_transfer opcode)
  unfolding decode_halfword_transfer
  decode_halfword_transfer-IsWellFormed =
      IsWellFormed-if (bit opcode 22) _ _ (register-bound 16, register-bound 12)
        (register-bound 16, register-bound 12, low-bound)

  decode_multiply-IsWellFormed : IsWellFormed (decode_multiply opcode)
  unfolding decode_multiply
  decode_multiply-IsWellFormed = (register-bound 16, register-bound 12, low-bound, register-bound 8)

  decode_multiply_long-IsWellFormed : IsWellFormed (decode_multiply_long opcode)
  unfolding decode_multiply_long
  decode_multiply_long-IsWellFormed =
      (register-bound 16, register-bound 12, low-bound, register-bound 8)

  immediate_with-IsWellFormed :
      (op : Option DataProcessingOp) → IsWellFormed (immediate_with opcode op)
  unfolding immediate_with
  immediate_with-IsWellFormed none = tt
  immediate_with-IsWellFormed (some op) =
      (register-bound 16, register-bound 12, rotate_right-IsU32 (opcode % 256) (omega arith) _)

  decode_data_processing_shift-IsShift? : IsShift? (decode_data_processing_shift opcode)
  unfolding decode_data_processing_shift
  decode_data_processing_shift-IsShift? =
      ground (arith, amount_pos (field opcode 7 5), register-bound 8)

  decode_load_store_shift-IsShift? : IsShift? (decode_load_store_shift opcode)
  unfolding decode_load_store_shift
  decode_load_store_shift-IsShift? = ground (arith, amount_pos (field opcode 7 5))

  register_with-IsWellFormed :
      (op : Option DataProcessingOp) (shift : Option RegisterShift)
      → IsShift? shift
      → IsWellFormed (register_with opcode op shift)
  unfolding register_with
  register_with-IsWellFormed none shift h = tt
  register_with-IsWellFormed (some op) none h = tt
  register_with-IsWellFormed (some op) (some shift) h =
      (register-bound 16, register-bound 12, low-bound, h)

  transfer_with-IsWellFormed :
      (shift : Option RegisterShift) → IsShift? shift → IsWellFormed (transfer_with opcode shift)
  unfolding transfer_with
  transfer_with-IsWellFormed none h = tt
  transfer_with-IsWellFormed (some shift) h = (register-bound 16, register-bound 12, low-bound, h)

  decode_data_processing_register-IsWellFormed :
      IsWellFormed (decode_data_processing_register opcode)
  unfolding decode_data_processing_register
  decode_data_processing_register-IsWellFormed = ground (
    arith,
    register_with-IsWellFormed (data_processing_op (field opcode 21 4))
        (decode_data_processing_shift opcode) decode_data_processing_shift-IsShift?,
  )

  decode_class-IsWellFormed : IsWellFormed (decode_class opcode)
  unfolding decode_class decode_block_transfer decode_data_processing_immediate
      decode_single_data_transfer_immediate decode_single_data_transfer_register decode_branch
  decode_class-IsWellFormed = ground (
    arith,
    immediate_with-IsWellFormed (data_processing_op (field opcode 21 4)),
    transfer_with-IsWellFormed (decode_load_store_shift opcode) decode_load_store_shift-IsShift?,
    decode_data_processing_register-IsWellFormed,
  )

  -- Whatever the opcode, the decoded instruction is well formed.
  pub arm_decode-IsWellFormed : IsWellFormed (Arm.decode opcode)
  unfolding Arm.decode decode_blx_immediate
  arm_decode-IsWellFormed = ground (
    arith, decode_multiply_long-IsWellFormed, decode_multiply-IsWellFormed,
    decode_halfword_transfer-IsWellFormed, decode_class-IsWellFormed,
  )
