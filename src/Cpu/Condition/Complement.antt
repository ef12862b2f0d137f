-- ===== src/Cpu/Condition/Complement.antt =====
-- The condition codes of crates/vmrp-cpu/src/execute.rs come in pairs.

use vmrp_rust.Prelude.{ℕ, ◌+◌, ◌*◌, ◌<◌, not, ◌≡◌, ap, arith}
use vmrp_rust.Cpu.Cpsr.{Cpsr}
use vmrp_rust.Cpu.Condition.{
  arm_condition_passed, from_bits, condition_bits, thumb_condition_passed,
}

-- For each of the first seven pairs of codes and any status register, exactly one code of the pair
-- passes.
pub arm_condition_passed_complement :
    (r : Cpsr) (pair : ℕ)
    → pair < 7
    → arm_condition_passed r (2 * pair + 1) ≡ not (arm_condition_passed r (2 * pair))
unfolding arm_condition_passed
arm_condition_passed_complement r pair h = ground arith

condition_bits-from_bits : (bits : ℕ) → condition_bits (from_bits bits) ≡ bits
unfolding condition_bits from_bits
condition_bits-from_bits bits = ground arith

-- A condition that the decoder makes of some bits passes in Thumb exactly when these bits pass in
-- ARM.
pub thumb_condition_passed-from_bits :
    (r : Cpsr) (bits : ℕ) → thumb_condition_passed r (from_bits bits) ≡ arm_condition_passed r bits
unfolding thumb_condition_passed
thumb_condition_passed-from_bits r bits =
    ap (arm_condition_passed r) (condition_bits-from_bits bits)
