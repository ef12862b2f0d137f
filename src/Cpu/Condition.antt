-- ===== src/Cpu/Condition.antt =====
-- The condition codes: `Condition` of crates/vmrp-cpu/src/decode/mod.rs, and
-- `arm_condition_passed` and `thumb_condition_passed` of crates/vmrp-cpu/src/execute.rs.
pub mod Compare
pub mod Complement
use vmrp_rust.Prelude.{ℕ, Bool, true, false, not, ◌&&◌, ◌||◌, ◌==◌, if◌then◌else◌}
use vmrp_rust.Cpu.Cpsr.{Cpsr, zero_flag, negative, carry, overflow}
use mathlib.Core.Bool.{beq}

pub data Condition : Type 0 where
  eq ne al : Condition
  other : ℕ → Condition

unfoldable pub from_bits : ℕ → Condition
from_bits bits =
    if bits == 0x0 then eq else if bits == 0x1 then ne else if bits == 0xe then al else other bits

unfoldable pub arm_condition_passed : Cpsr → ℕ → Bool
arm_condition_passed r cond =
    if cond == 0x0
    then zero_flag r
    else if cond == 0x1
    then not (zero_flag r)
    else if cond == 0x2
    then carry r
    else if cond == 0x3
    then not (carry r)
    else if cond == 0x4
    then negative r
    else if cond == 0x5
    then not (negative r)
    else if cond == 0x6
    then overflow r
    else if cond == 0x7
    then not (overflow r)
    else if cond == 0x8
    then carry r && not (zero_flag r)
    else if cond == 0x9
    then not (carry r) || zero_flag r
    else if cond == 0xa
    then beq (negative r) (overflow r)
    else if cond == 0xb
    then not (beq (negative r) (overflow r))
    else if cond == 0xc
    then not (zero_flag r) && beq (negative r) (overflow r)
    else if cond == 0xd
    then zero_flag r || not (beq (negative r) (overflow r))
    else if cond == 0xe
    then true
    else false

-- The bits that a `Condition` stands for.
unfoldable pub condition_bits : Condition → ℕ
condition_bits eq = 0x0
condition_bits ne = 0x1
condition_bits al = 0xe
condition_bits (other bits) = bits

unfoldable pub thumb_condition_passed : Cpsr → Condition → Bool
unfolding condition_bits
thumb_condition_passed r condition = arm_condition_passed r (condition_bits condition)
