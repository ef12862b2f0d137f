-- ===== src/Cpu/Execute/DataProcessing.antt =====
-- crates/vmrp-cpu/src/execute.rs: data processing and multiplication, in ARM mode.
use vmrp_rust.Prelude.{
  ℕ, ◌+◌, ◌-◌, ◌*◌, ◌/◌, ◌%◌, ◌^◌, bit_and, bit_or, bit_xor, Bool, true, false, ◌==◌, ◌!=◌,
  if◌then◌else◌, Option, none, some,
}
use vmrp_rust.Word.{add32, sub32, mul32, not32, bit}
use vmrp_rust.Cpu.Cpsr.{
  ExecutionMode, update_nz, update_nzcv_add, update_nzcv_sub, set_carry, set_overflow, set_negative,
  set_zero, carry,
}
use vmrp_rust.Cpu.Decode.{DataProcessingOp, RegisterShift}
use vmrp_rust.Cpu.Machine.{Exec, pure, ◌>>=◌, ◌>>◌, reg, set_reg, push_write, cpsr, change_cpsr}
use vmrp_rust.Cpu.Execute.Common.{
  when, advance, write_result_and_advance, reg_or_pc, add_with_carry, arm_immediate_carry,
  apply_register_shift,
}

-- `if let Some(carry) = shifter_carry { regs.cpsr_mut().set_carry(carry) }`.
unfoldable pub set_shifter_carry : {M : Type 0} → Option Bool → Exec M (Unit {0})
unfolding change_cpsr
set_shifter_carry none = pure tt
set_shifter_carry (some c) = change_cpsr (λ r. set_carry r c)

-- `update_nz(result)`, then the carry of the shifter.
unfoldable pub logical_flags : {M : Type 0} → ℕ → Option Bool → Exec M (Unit {0})
unfolding change_cpsr set_shifter_carry
logical_flags result shifter_carry = do
  change_cpsr (λ r. update_nz r result)
  set_shifter_carry shifter_carry

-- The arms of And, Eor, Orr, Bic, Mov and Mvn, on their result.
unfoldable pub write_logical : {M : Type 0} → Bool → ℕ → ℕ → ℕ → Option Bool → Exec M (Unit {0})
unfolding write_result_and_advance logical_flags
write_logical set_flags rd result pc shifter_carry = do
  write_result_and_advance rd result (add32 pc 4)
  when set_flags (logical_flags result shifter_carry)

-- The arms of Add, and of Sub and Rsb.
unfoldable pub write_sum : {M : Type 0} → Bool → ℕ → ℕ → ℕ → ℕ → Exec M (Unit {0})
unfolding write_result_and_advance change_cpsr
write_sum set_flags rd left right pc = do
  let result = add32 left right
  write_result_and_advance rd result (add32 pc 4)
  when set_flags (change_cpsr (λ r. update_nzcv_add r left right result))

unfoldable pub write_difference : {M : Type 0} → Bool → ℕ → ℕ → ℕ → ℕ → Exec M (Unit {0})
unfolding write_result_and_advance change_cpsr
write_difference set_flags rd left right pc = do
  let result = sub32 left right
  write_result_and_advance rd result (add32 pc 4)
  when set_flags (change_cpsr (λ r. update_nzcv_sub r left right result))

-- The arm of Adc.
unfoldable pub write_sum_carry : {M : Type 0} → Bool → ℕ → ℕ → ℕ → ℕ → Exec M (Unit {0})
unfolding cpsr write_result_and_advance change_cpsr add_with_carry
write_sum_carry set_flags rd left right pc = do
  status ← cpsr
  let out = add_with_carry left right (carry status)
  write_result_and_advance rd out.0 (add32 pc 4)
  when set_flags (change_cpsr (λ r. set_overflow (set_carry (update_nz r out.0) out.1) out.2))

-- The `match op` of the data processing instructions.
unfoldable pub data_processing :
    {M : Type 0} → DataProcessingOp → Bool → ℕ → ℕ → ℕ → Option Bool → ℕ → Exec M (Unit {0})
unfolding write_logical logical_flags advance write_sum write_difference write_sum_carry change_cpsr
data_processing DataProcessingOp.and set_flags rd left right shifter_carry pc =
    write_logical set_flags rd (bit_and left right) pc shifter_carry
data_processing DataProcessingOp.eor set_flags rd left right shifter_carry pc =
    write_logical set_flags rd (bit_xor left right) pc shifter_carry
data_processing DataProcessingOp.tst set_flags rd left right shifter_carry pc = do
  logical_flags (bit_and left right) shifter_carry
  advance (add32 pc 4)
data_processing DataProcessingOp.orr set_flags rd left right shifter_carry pc =
    write_logical set_flags rd (bit_or left right) pc shifter_carry
data_processing DataProcessingOp.bic set_flags rd left right shifter_carry pc =
    write_logical set_flags rd (bit_and left (not32 right)) pc shifter_carry
data_processing DataProcessingOp.add set_flags rd left right shifter_carry pc =
    write_sum set_flags rd left right pc
data_processing DataProcessingOp.adc set_flags rd left right shifter_carry pc =
    write_sum_carry set_flags rd left right pc
data_processing DataProcessingOp.sub set_flags rd left right shifter_carry pc =
    write_difference set_flags rd left right pc
data_processing DataProcessingOp.rsb set_flags rd left right shifter_carry pc =
    write_difference set_flags rd right left pc
data_processing DataProcessingOp.mov set_flags rd left right shifter_carry pc =
    write_logical set_flags rd right pc shifter_carry
data_processing DataProcessingOp.mvn set_flags rd left right shifter_carry pc =
    write_logical set_flags rd (not32 right) pc shifter_carry
data_processing DataProcessingOp.cmp set_flags rd left right shifter_carry pc = do
  change_cpsr (λ r. update_nzcv_sub r left right (sub32 left right))
  advance (add32 pc 4)
data_processing DataProcessingOp.cmn set_flags rd left right shifter_carry pc = do
  change_cpsr (λ r. update_nzcv_add r left right (add32 left right))
  advance (add32 pc 4)

unfoldable pub execute_data_processing_register :
    {M : Type 0}
    → DataProcessingOp
    → Bool
    → ℕ
    → ℕ
    → ℕ
    → RegisterShift
    → ℕ
    → ExecutionMode
    → Exec M (Unit {0})
unfolding reg_or_pc cpsr apply_register_shift data_processing
execute_data_processing_register op set_flags rn rd rm shift pc mode = do
  left ← reg_or_pc mode pc rn
  rm_value ← reg_or_pc mode pc rm
  status ← cpsr
  (right, shifter_carry) ← apply_register_shift rm_value shift (carry status)
  data_processing op set_flags rd left right shifter_carry pc

-- Mov and Mvn read no first operand.
unfoldable pub immediate_left : {M : Type 0} → DataProcessingOp → ℕ → Exec M ℕ
unfolding reg
immediate_left DataProcessingOp.mov rn = pure 0
immediate_left DataProcessingOp.mvn rn = pure 0
immediate_left op rn = reg rn

unfoldable pub execute_data_processing_immediate :
    {M : Type 0} → DataProcessingOp → Bool → ℕ → ℕ → ℕ → ℕ → ℕ → Exec M (Unit {0})
unfolding cpsr immediate_left data_processing arm_immediate_carry
execute_data_processing_immediate op set_flags rn rd immediate pc opcode = do
  status ← cpsr
  left ← immediate_left op rn
  data_processing op set_flags rd left immediate (some (arm_immediate_carry opcode (carry status)))
      pc

unfoldable pub execute_multiply : {M : Type 0} → Bool → Bool → ℕ → ℕ → ℕ → ℕ → ℕ → Exec M (Unit {0})
unfolding reg write_result_and_advance change_cpsr
execute_multiply accumulate set_flags rd rn rm rs pc = do
  lhs ← reg rm
  rhs ← reg rs
  let product = mul32 lhs rhs
  result ← (if accumulate then (do addend ← reg rn; pure (add32 product addend)) else pure product)
  write_result_and_advance rd result (add32 pc 4)
  when set_flags (change_cpsr (λ r. update_nz r result))

-- `a as i32 as i64 as i128`, on bit patterns.
abbrev pub i128_of_i32 : ℕ → ℕ
i128_of_i32 a = if bit a 31 then a + (2 ^ 128 - 2 ^ 32) else a

-- The product as an i128, on bit patterns.
unfoldable pub long_product : Bool → ℕ → ℕ → ℕ
long_product true lhs rhs = i128_of_i32 lhs * i128_of_i32 rhs % 2 ^ 128
long_product false lhs rhs = lhs * rhs

unfoldable pub execute_multiply_long :
    {M : Type 0} → Bool → Bool → Bool → ℕ → ℕ → ℕ → ℕ → ℕ → Exec M (Unit {0})
unfolding reg set_reg push_write change_cpsr advance long_product
execute_multiply_long signed accumulate set_flags rd_hi rd_lo rm rs pc = do
  lhs ← reg rm
  rhs ← reg rs
  let product = long_product signed lhs rhs
  result ←
      (if accumulate
        then (do
          hi ← reg rd_hi
          lo ← reg rd_lo
          pure ((product + bit_or (hi * 2 ^ 32) lo) % 2 ^ 128))
        else pure product)
  let result_u64 = result % 2 ^ 64
  let lo = result_u64 % 2 ^ 32
  let hi = result_u64 / 2 ^ 32
  set_reg rd_lo lo
  set_reg rd_hi hi
  push_write rd_lo lo
  push_write rd_hi hi
  when set_flags (
      change_cpsr (λ r.
        set_zero (set_negative r (bit_and result_u64 0x8000_0000_0000_0000 != 0))
          (result_u64 == 0)))
  advance (add32 pc 4)
