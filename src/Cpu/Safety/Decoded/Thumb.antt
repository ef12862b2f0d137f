-- ===== src/Cpu/Safety/Decoded/Thumb.antt =====
-- The instructions of crates/vmrp-cpu/src/decode/thumb.rs are well formed.
use vmrp_rust.Prelude.{ℕ, ◌*◌, ◌%◌, ◌^◌, ◌<◌, bit_or, arith}
use vmrp_rust.Word.{field}
use vmrp_rust.Word.Bits.{bit_or-lt}
use vmrp_rust.Cpu.Thumb
use vmrp_rust.Cpu.Thumb.{
  decode_add_sub, decode_alu_register, decode_hi_register, decode_shift_immediate, decode_fallback,
}
use vmrp_rust.Cpu.Safety.Decoded.{IsWellFormed}

module _ (opcode : ℕ) where
  decode_add_sub-IsWellFormed : IsWellFormed (decode_add_sub opcode)
  unfolding decode_add_sub
  decode_add_sub-IsWellFormed = ground arith

  decode_alu_register-IsWellFormed : IsWellFormed (decode_alu_register opcode)
  unfolding decode_alu_register
  decode_alu_register-IsWellFormed = ground arith

  high_index : (low high : ℕ) → low < 8 → high < 2 → bit_or low (high * 2 ^ 3) < 16
  high_index low high p q = bit_or-lt 4 low (high * 2 ^ 3) (omega arith) (omega arith)

  decode_hi_register-IsWellFormed : IsWellFormed (decode_hi_register opcode)
  unfolding decode_hi_register
  decode_hi_register-IsWellFormed = (
    high_index (opcode % 8) (field opcode 7 1) (omega arith) (omega arith),
    high_index (field opcode 3 3) (field opcode 6 1) (omega arith) (omega arith),
  )

  decode_shift_immediate-IsWellFormed : IsWellFormed (decode_shift_immediate opcode)
  unfolding decode_shift_immediate
  decode_shift_immediate-IsWellFormed = ground arith

  decode_fallback-IsWellFormed : IsWellFormed (decode_fallback opcode)
  unfolding decode_fallback
  decode_fallback-IsWellFormed =
      ground (arith, decode_alu_register-IsWellFormed, decode_hi_register-IsWellFormed)

  -- Whatever the opcode, the decoded instruction is well formed.
  pub thumb_decode-IsWellFormed : IsWellFormed (Thumb.decode opcode)
  unfolding Thumb.decode
  thumb_decode-IsWellFormed = ground (
    arith, decode_shift_immediate-IsWellFormed, decode_add_sub-IsWellFormed,
    decode_fallback-IsWellFormed,
  )
