-- ===== src/Cpu/Thumb.antt =====
-- crates/vmrp-cpu/src/decode/thumb.rs: the decoder of 16-bit instructions.
pub mod RoundTrip
use vmrp_rust.Prelude.{
  ℕ, ◌+◌, ◌*◌, ◌/◌, ◌%◌, ◌^◌, bit_and, bit_or, Bool, true, false, ◌&&◌, ◌||◌, ◌==◌, ◌!=◌,
  if◌then◌else◌,
}
use vmrp_rust.Word.{field, bit, shl32, asr32, i32_of_i8}
use vmrp_rust.Cpu.Condition.{from_bits}
use vmrp_rust.Cpu.Decode.{
  RegisterShift, ThumbOperand, ThumbAluOp, ThumbHiOp, DecodedInstruction, thumb_add_immediate,
  thumb_add_sub, thumb_adjust_sp, thumb_alu_register, thumb_branch, thumb_cmp_immediate,
  thumb_conditional_branch, thumb_shift_immediate, thumb_hi_register_op, thumb_literal_load,
  thumb_load_address, thumb_load_store_register_offset, thumb_load_store_multiple,
  thumb_load_store_sp_relative, thumb_load_store_byte_immediate, thumb_load_store_word_immediate,
  thumb_long_branch_prefix, thumb_long_branch_suffix, thumb_mov_immediate, thumb_pop, thumb_push,
  thumb_sub_immediate, unknown, lsl, lsr, asr,
}

unfoldable pub decode_add_sub : ℕ → DecodedInstruction
decode_add_sub opcode =
    let sub = bit opcode 9 in
    let rs = field opcode 3 3 in
    let rd = opcode % 8 in
    thumb_add_sub sub rd rs (
      if bit opcode 10
      then ThumbOperand.immediate (field opcode 6 3)
      else ThumbOperand.register (field opcode 6 3))

unfoldable pub decode_alu_register : ℕ → DecodedInstruction
decode_alu_register opcode =
    let op = field opcode 6 4 in
    let rs = field opcode 3 3 in
    let rd = opcode % 8 in
    if op == 0xa
    then thumb_alu_register ThumbAluOp.cmp rd rs
    else if op == 0xc
    then thumb_alu_register ThumbAluOp.orr rd rs
    else if op == 0xf
    then thumb_alu_register ThumbAluOp.mvn rd rs
    else unknown opcode

-- `op` has two bits, so the last test always passes.
unfoldable pub decode_hi_register : ℕ → DecodedInstruction
decode_hi_register opcode =
    let op = field opcode 8 2 in
    let h1 = field opcode 7 1 in
    let h2 = field opcode 6 1 in
    let rs = bit_or (field opcode 3 3) (h2 * 2 ^ 3) in
    let rd = bit_or (opcode % 8) (h1 * 2 ^ 3) in
    thumb_hi_register_op
      (if op == 0
        then ThumbHiOp.add
        else if op == 1
        then ThumbHiOp.cmp
        else if op == 2
        then ThumbHiOp.mov
        else if h1 == 0
        then ThumbHiOp.bx
        else ThumbHiOp.blx)
      rd rs

-- Called on opcodes below 0x1800 only, where the field at bit 11 is 0, 1 or 2.
unfoldable pub decode_shift_immediate : ℕ → DecodedInstruction
decode_shift_immediate opcode =
    let shift_type = field opcode 11 2 in
    let imm = field opcode 6 5 in
    let amount = if imm == 0 then 32 else imm in
    thumb_shift_immediate (opcode % 8) (field opcode 3 3)
      (if shift_type == 0 then lsl imm else if shift_type == 1 then lsr amount else asr amount)

unfoldable pub decode_fallback : ℕ → DecodedInstruction
unfolding decode_alu_register decode_hi_register from_bits
decode_fallback opcode =
    if bit_and opcode 0xfc00 == 0x4000
    then decode_alu_register opcode
    else if bit_and opcode 0xfc00 == 0x4400
    then decode_hi_register opcode
    else if bit_and opcode 0xf200 == 0x5000
    then thumb_load_store_register_offset (bit opcode 11) (bit opcode 10) (field opcode 6 3)
        (field opcode 3 3) (opcode % 8)
    else if bit_and opcode 0xf000 == 0x7000
    then thumb_load_store_byte_immediate (bit opcode 11) (field opcode 3 3) (opcode % 8)
        (field opcode 6 5)
    else if bit_and opcode 0xf000 == 0x6000
    then thumb_load_store_word_immediate (bit opcode 11) (field opcode 3 3) (opcode % 8)
        (field opcode 6 5 * 2 ^ 2)
    else if bit_and opcode 0xfe00 == 0xb400
    then thumb_push (opcode % 256) (bit opcode 8)
    else if bit_and opcode 0xfe00 == 0xbc00
    then thumb_pop (opcode % 256) (bit opcode 8)
    else if bit_and opcode 0xff00 == 0xb000
    then thumb_adjust_sp (bit opcode 7) (opcode % 2 ^ 7 * 2 ^ 2)
    else if bit_and opcode 0xf000 == 0xc000
    then thumb_load_store_multiple (bit opcode 11) (field opcode 8 3) (opcode % 256)
    else if bit_and opcode 0xf000 == 0xd000 && field opcode 8 4 != 0xf
    then thumb_conditional_branch (from_bits (field opcode 8 4))
        (shl32 (i32_of_i8 (opcode % 256)) 1)
    else if bit_and opcode 0xf800 == 0xe800
    then thumb_long_branch_suffix true (opcode % 2 ^ 11 * 2)
    else unknown opcode

-- `match opcode & 0xF800`.
unfoldable pub decode : ℕ → DecodedInstruction
unfolding decode_shift_immediate decode_add_sub decode_fallback
decode opcode =
    let key = bit_and opcode 0xf800 in
    if key == 0x0000 || key == 0x0800 || key == 0x1000
    then decode_shift_immediate opcode
    else if key == 0x1800
    then decode_add_sub opcode
    else if key == 0x2000
    then thumb_mov_immediate (field opcode 8 3) (opcode % 256)
    else if key == 0x2800
    then thumb_cmp_immediate (field opcode 8 3) (opcode % 256)
    else if key == 0x3000
    then thumb_add_immediate (field opcode 8 3) (opcode % 256)
    else if key == 0x3800
    then thumb_sub_immediate (field opcode 8 3) (opcode % 256)
    else if key == 0x4800
    then thumb_literal_load (field opcode 8 3) (opcode % 256 * 2 ^ 2)
    else if key == 0x9000 || key == 0x9800
    then thumb_load_store_sp_relative (bit opcode 11) (field opcode 8 3) (opcode % 256 * 2 ^ 2)
    else if key == 0xa000 || key == 0xa800
    then thumb_load_address (bit opcode 11) (field opcode 8 3) (opcode % 256 * 2 ^ 2)
    else if key == 0xe000
    then (let raw = opcode % 2 ^ 11 * 2 in thumb_branch (asr32 (shl32 raw 20) 20))
    else if key == 0xf000
    then (let raw = opcode % 2 ^ 11 * 2 ^ 12 in thumb_long_branch_prefix (asr32 (shl32 raw 9) 9))
    else if key == 0xf800
    then thumb_long_branch_suffix false (opcode % 2 ^ 11 * 2)
    else decode_fallback opcode
