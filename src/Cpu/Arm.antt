-- ===== src/Cpu/Arm.antt =====
-- crates/vmrp-cpu/src/decode/arm.rs: the decoder of 32-bit instructions.
use vmrp_rust.Prelude.{
  ℕ, ◌*◌, ◌%◌, ◌^◌, bit_and, bit_or, Bool, true, false, ◌&&◌, ◌||◌, Option, none, some, ◌==◌, ◌!=◌,
  if◌then◌else◌,
}
use vmrp_rust.Word.{field, bit, shl32, asr32, rotate_right}
use vmrp_rust.Cpu.Condition.{from_bits}
use vmrp_rust.Cpu.Decode.{
  DataProcessingOp, RegisterShift, DecodedInstruction, block_transfer, branch, branch_exchange,
  branch_link_exchange_immediate, data_processing_immediate, data_processing_register, multiply,
  multiply_long, single_data_transfer_immediate, single_data_transfer_register,
  halfword_transfer_immediate, halfword_transfer_register, unknown, lsl, lsl_register, lsr,
  lsr_register, asr, asr_register, ror, ror_register,
}

unfoldable pub is_halfword_transfer : ℕ → Bool
is_halfword_transfer opcode =
    let immediate = bit opcode 22 in
    field opcode 25 3 == 0
    && bit opcode 7
    && bit opcode 4
    && field opcode 5 2 != 0
    && (immediate || field opcode 8 4 == 0)

unfoldable pub decode_halfword_transfer : ℕ → DecodedInstruction
decode_halfword_transfer opcode =
    let op = field opcode 5 2 in
    let load = bit opcode 20 in
    let signed = bit op 1 in
    let halfword = op % 2 != 0 in
    let base = field opcode 16 4 in
    let rd = field opcode 12 4 in
    let add_offset = bit opcode 23 in
    let pre_index = bit opcode 24 in
    let write_back = bit opcode 21 in
    if bit opcode 22
    then (let offset = bit_or (field opcode 8 4 * 2 ^ 4) (opcode % 16) in
        halfword_transfer_immediate load signed halfword base rd offset add_offset pre_index
          write_back)
    else halfword_transfer_register load signed halfword base rd (opcode % 16) add_offset pre_index
        write_back

unfoldable pub decode_multiply : ℕ → DecodedInstruction
decode_multiply opcode =
    multiply (bit opcode 21) (bit opcode 20) (field opcode 16 4) (field opcode 12 4) (opcode % 16)
      (field opcode 8 4)

unfoldable pub decode_multiply_long : ℕ → DecodedInstruction
decode_multiply_long opcode =
    multiply_long (bit opcode 22) (bit opcode 21) (bit opcode 20) (field opcode 16 4)
      (field opcode 12 4) (opcode % 16) (field opcode 8 4)

unfoldable pub decode_block_transfer : ℕ → DecodedInstruction
decode_block_transfer opcode =
    block_transfer (bit opcode 20) (bit opcode 24) (bit opcode 23) (bit opcode 21)
      (field opcode 16 4) (opcode % 2 ^ 16)

-- The operation of both kinds of data processing, from the four bits at bit 21.
unfoldable pub data_processing_op : ℕ → Option DataProcessingOp
data_processing_op bits =
    if bits == 0b1101
    then some DataProcessingOp.mov
    else if bits == 0b0000
    then some DataProcessingOp.and
    else if bits == 0b0001
    then some DataProcessingOp.eor
    else if bits == 0b1100
    then some DataProcessingOp.orr
    else if bits == 0b0100
    then some DataProcessingOp.add
    else if bits == 0b0101
    then some DataProcessingOp.adc
    else if bits == 0b0010
    then some DataProcessingOp.sub
    else if bits == 0b0011
    then some DataProcessingOp.rsb
    else if bits == 0b1000
    then some DataProcessingOp.tst
    else if bits == 0b1010
    then some DataProcessingOp.cmp
    else if bits == 0b1011
    then some DataProcessingOp.cmn
    else if bits == 0b1111
    then some DataProcessingOp.mvn
    else if bits == 0b1110
    then some DataProcessingOp.bic
    else none

unfoldable pub immediate_with : ℕ → Option DataProcessingOp → DecodedInstruction
immediate_with opcode none = unknown opcode
immediate_with opcode (some op) =
    let rotate = field opcode 8 4 * 2 in
    let imm8 = opcode % 256 in
    data_processing_immediate op (bit opcode 20) (field opcode 16 4) (field opcode 12 4)
      (rotate_right imm8 rotate)

unfoldable pub decode_data_processing_immediate : ℕ → DecodedInstruction
unfolding data_processing_op immediate_with
decode_data_processing_immediate opcode =
    immediate_with opcode (data_processing_op (field opcode 21 4))

-- An immediate shift amount of `lsr` or `asr`, where 0 stands for 32.
abbrev shift_amount : ℕ → ℕ
shift_amount imm = if imm == 0 then 32 else imm

unfoldable pub decode_data_processing_shift : ℕ → Option RegisterShift
decode_data_processing_shift opcode =
    let shift_type = field opcode 5 2 in
    let rs = field opcode 8 4 in
    let shift_imm = field opcode 7 5 in
    if bit opcode 4
    then (if shift_type == 0b00
        then some (lsl_register rs)
        else if shift_type == 0b01
        then some (lsr_register rs)
        else if shift_type == 0b10
        then some (asr_register rs)
        else if shift_type == 0b11
        then some (ror_register rs)
        else none)
    else if shift_type == 0b00
    then some (lsl shift_imm)
    else if shift_type == 0b01
    then some (lsr (shift_amount shift_imm))
    else if shift_type == 0b10
    then some (asr (shift_amount shift_imm))
    else if shift_type == 0b11
    then some (ror shift_imm)
    else none

unfoldable pub decode_load_store_shift : ℕ → Option RegisterShift
decode_load_store_shift opcode =
    let shift_type = field opcode 5 2 in
    let shift_imm = field opcode 7 5 in
    if bit opcode 4
    then none
    else if shift_type == 0b00
    then some (lsl shift_imm)
    else if shift_type == 0b01
    then some (lsr (shift_amount shift_imm))
    else if shift_type == 0b10
    then some (asr (shift_amount shift_imm))
    else if shift_type == 0b11
    then some (ror shift_imm)
    else none

unfoldable pub register_with :
    ℕ → Option DataProcessingOp → Option RegisterShift → DecodedInstruction
register_with opcode none shift = unknown opcode
register_with opcode (some op) none = unknown opcode
register_with opcode (some op) (some shift) =
    data_processing_register op (bit opcode 20) (field opcode 16 4) (field opcode 12 4)
      (opcode % 16) shift

unfoldable pub decode_data_processing_register : ℕ → DecodedInstruction
unfolding data_processing_op decode_data_processing_shift register_with
decode_data_processing_register opcode =
    if field opcode 26 2 != 0 || bit opcode 25
    then unknown opcode
    else register_with opcode (data_processing_op (field opcode 21 4))
        (decode_data_processing_shift opcode)

unfoldable pub decode_single_data_transfer_immediate : ℕ → DecodedInstruction
decode_single_data_transfer_immediate opcode =
    single_data_transfer_immediate (bit opcode 20) (bit opcode 22) (field opcode 16 4)
      (field opcode 12 4) (opcode % 2 ^ 12) (bit opcode 23) (bit opcode 24) (bit opcode 21)

unfoldable pub transfer_with : ℕ → Option RegisterShift → DecodedInstruction
transfer_with opcode none = unknown opcode
transfer_with opcode (some shift) =
    single_data_transfer_register (bit opcode 20) (bit opcode 22) (field opcode 16 4)
      (field opcode 12 4) (opcode % 16) shift (bit opcode 23) (bit opcode 24) (bit opcode 21)

unfoldable pub decode_single_data_transfer_register : ℕ → DecodedInstruction
unfolding decode_load_store_shift transfer_with
decode_single_data_transfer_register opcode = transfer_with opcode (decode_load_store_shift opcode)

unfoldable pub decode_branch : ℕ → DecodedInstruction
unfolding from_bits
decode_branch opcode =
    let link = bit opcode 24 in
    let offset = asr32 (shl32 (opcode % 2 ^ 24) 8) 6 in
    branch (from_bits (field opcode 28 4)) link offset

unfoldable pub decode_blx_immediate : ℕ → DecodedInstruction
decode_blx_immediate opcode =
    let h = field opcode 24 1 in
    let imm24 = opcode % 2 ^ 24 in
    let raw = bit_or (imm24 * 2 ^ 2) (h * 2) in
    branch_link_exchange_immediate (asr32 (shl32 raw 6) 6)

abbrev pub bx_mask : ℕ
bx_mask = 0x0fff_fff0

abbrev pub multiply_mask : ℕ
multiply_mask = 0x0fc0_00f0

abbrev pub multiply_long_mask : ℕ
multiply_long_mask = 0x0f80_00f0

abbrev pub blx_immediate_mask : ℕ
blx_immediate_mask = 0xfe00_0000

-- `match opcode & (0b111 << 25)`.
unfoldable pub decode_class : ℕ → DecodedInstruction
unfolding decode_block_transfer decode_data_processing_immediate
    decode_single_data_transfer_immediate decode_single_data_transfer_register decode_branch
    decode_data_processing_register
decode_class opcode =
    let tag = bit_and opcode (0b111 * 2 ^ 25) in
    if tag == 0b100 * 2 ^ 25
    then decode_block_transfer opcode
    else if tag == 0b001 * 2 ^ 25
    then decode_data_processing_immediate opcode
    else if tag == 0b010 * 2 ^ 25
    then decode_single_data_transfer_immediate opcode
    else if tag == 0b011 * 2 ^ 25
    then decode_single_data_transfer_register opcode
    else if tag == 0b101 * 2 ^ 25
    then decode_branch opcode
    else decode_data_processing_register opcode

unfoldable pub decode : ℕ → DecodedInstruction
unfolding decode_multiply decode_multiply_long decode_blx_immediate is_halfword_transfer
    decode_halfword_transfer decode_class
decode opcode =
    if bit_and opcode bx_mask == 0x012f_ff10
    then branch_exchange false (opcode % 16)
    else if bit_and opcode bx_mask == 0x012f_ff30
    then branch_exchange true (opcode % 16)
    else if bit_and opcode multiply_long_mask == 0x0080_0090
    then decode_multiply_long opcode
    else if bit_and opcode multiply_mask == 0x0000_0090
    then decode_multiply opcode
    else if bit_and opcode blx_immediate_mask == 0xfa00_0000
    then decode_blx_immediate opcode
    else if is_halfword_transfer opcode
    then decode_halfword_transfer opcode
    else decode_class opcode
