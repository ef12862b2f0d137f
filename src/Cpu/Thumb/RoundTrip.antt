-- ===== src/Cpu/Thumb/RoundTrip.antt =====
-- Encodings that crates/vmrp-cpu/src/decode/thumb.rs decodes to the instruction they stand for.
use vmrp_rust.Prelude.{
  ℕ, ◌+◌, ◌-◌, ◌*◌, ◌/◌, ◌%◌, ◌^◌, ◌<◌, bit_and, ◌≡◌, ap, false, ◌==◌, if◌then◌else◌, arith,
}
use vmrp_rust.Word.{IsU16, shl32, asr32}
use vmrp_rust.Word.Bits.{bit_and_split, bit_and-ones, bit_and-zero}
use vmrp_rust.Cpu.Decode.{
  thumb_mov_immediate, thumb_cmp_immediate, thumb_add_immediate, thumb_sub_immediate,
  thumb_literal_load, thumb_long_branch_prefix, thumb_long_branch_suffix,
}
use vmrp_rust.Cpu.Thumb.{decode}

-- The top five bits of an opcode.
class_of : (opcode : ℕ) → IsU16 opcode → bit_and opcode 0xf800 ≡ opcode / 2 ^ 11 * 2 ^ 11
class_of opcode h = omega (
  arith,
  bit_and_split 11 opcode 0xf800,
  bit_and-ones 5 (opcode / 2 ^ 11),
  bit_and-zero (opcode % 2 ^ 11),
)

-- The encoding of the five classes with a register and a byte.
abbrev pub encode_immediate : ℕ → ℕ → ℕ → ℕ
encode_immediate class rd value = class * 2 ^ 11 + rd * 2 ^ 8 + value

module _ (rd value : ℕ) (is_low : rd < 8) (is_byte : value < 256) where
  -- MOV, CMP, ADD and SUB of a low register and a byte, and the load from the literal pool, decode to
  -- themselves from their encodings.
  pub decode-encode_immediate :
      (decode (encode_immediate 4 rd value) ≡ thumb_mov_immediate rd value)
      × (decode (encode_immediate 5 rd value) ≡ thumb_cmp_immediate rd value)
      × (decode (encode_immediate 6 rd value) ≡ thumb_add_immediate rd value)
      × (decode (encode_immediate 7 rd value) ≡ thumb_sub_immediate rd value)
      × (decode (encode_immediate 9 rd value) ≡ thumb_literal_load rd (value * 4))
  unfolding decode
  decode-encode_immediate = (
    ground (arith, class_of (encode_immediate 4 rd value) (omega arith)),
    ground (arith, class_of (encode_immediate 5 rd value) (omega arith)),
    ground (arith, class_of (encode_immediate 6 rd value) (omega arith)),
    ground (arith, class_of (encode_immediate 7 rd value) (omega arith)),
    ground (arith, class_of (encode_immediate 9 rd value) (omega arith)),
  )

-- The upper half of a long branch: eleven bits at bit 12, with their sign, on a bit pattern of i32.
abbrev pub upper_offset : ℕ → ℕ
upper_offset high = if high / 2 ^ 10 == 0 then high * 2 ^ 12 else high * 2 ^ 12 + (2 ^ 32 - 2 ^ 23)

module _ (half : ℕ) (fits : half < 2 ^ 11) where
  prefix_class : bit_and (0xf000 + half) 0xf800 ≡ 0xf000
  prefix_class = omega (arith, class_of (0xf000 + half) (omega arith))

  prefix_offset : asr32 (shl32 ((0xf000 + half) % 2 ^ 11 * 2 ^ 12) 9) 9 ≡ upper_offset half
  prefix_offset = ground arith

  -- The first half of a long branch decodes to its upper offset, with the sign extended.
  pub decode-prefix : decode (0xf000 + half) ≡ thumb_long_branch_prefix (upper_offset half)
  unfolding decode
  decode-prefix = rw prefix_class (ap thumb_long_branch_prefix prefix_offset)

  suffix_class : bit_and (0xf800 + half) 0xf800 ≡ 0xf800
  suffix_class = omega (arith, class_of (0xf800 + half) (omega arith))

  suffix_offset : (0xf800 + half) % 2 ^ 11 * 2 ≡ half * 2
  suffix_offset = omega arith

  pub decode-suffix : decode (0xf800 + half) ≡ thumb_long_branch_suffix false (half * 2)
  unfolding decode
  decode-suffix = rw suffix_class (ap (thumb_long_branch_suffix false) suffix_offset)
