-- ===== src/Cpu/Execute/Common.antt =====
-- crates/vmrp-cpu/src/execute.rs: the helpers that the instructions share.
use vmrp_rust.Prelude.{
  ℕ, suc, ◌+◌, ◌-◌, ◌*◌, ◌%◌, ◌^◌, bit_and, bit_or, Bool, true, false, ltb, leb, ◌==◌, ◌!=◌, ◌&&◌,
  if◌then◌else◌, of_bool, Option, none, some, List, [], ◌∷◌,
}
use vmrp_rust.Word.{u32_max, add32, not32, field, bit, shr, shl32, asr32, rotate_right, u32_max}
use vmrp_rust.Cpu.Cpsr.{ExecutionMode, arm, thumb, add_overflow, is_arm}
use vmrp_rust.Cpu.Memory.{MemoryBus}
use vmrp_rust.Cpu.Decode.{
  RegisterShift, lsl, lsl_register, lsr, lsr_register, asr, asr_register, ror, ror_register,
}
use vmrp_rust.Cpu.Machine.{
  Exec, pure, ◌>>=◌, ◌>>◌, panic, reg, set_reg, set_pc, set_execution_mode, push_write, read32,
  write32,
}

abbrev pub when : {M : Type 0} → Bool → Exec M (Unit {0}) → Exec M (Unit {0})
when true m = m
when false m = pure tt

-- `regs.set_reg(index, value); register_writes.push(…)`.
unfoldable pub write_reg : {M : Type 0} → ℕ → ℕ → Exec M (Unit {0})
unfolding set_reg push_write
write_reg index value = do set_reg index value; push_write index value

-- `regs.set_pc(next_pc); register_writes.push(…)`.
unfoldable pub advance : {M : Type 0} → ℕ → Exec M (Unit {0})
unfolding set_pc push_write
advance next_pc = do set_pc next_pc; push_write 15 next_pc

unfoldable pub write_result_and_advance : {M : Type 0} → ℕ → ℕ → ℕ → Exec M (Unit {0})
unfolding write_reg advance
write_result_and_advance rd value next_pc =
    if rd == 15 then advance value else (do write_reg rd value; advance next_pc)

-- The mode that bit 0 of a branch target selects, and the target without the low bits.
unfoldable pub target_mode : ℕ → ExecutionMode
target_mode target = if target % 2 != 0 then thumb else arm

unfoldable pub target_pc : ℕ → ℕ
target_pc target = if target % 2 != 0 then bit_and target (not32 1) else bit_and target (not32 3)

-- `regs.set_execution_mode(next_mode); regs.set_pc(next_pc); register_writes.push(…)` for the mode
-- and the pc of a branch target.
unfoldable pub exchange : {M : Type 0} → ℕ → Exec M (Unit {0})
unfolding set_execution_mode advance target_mode target_pc
exchange target = do set_execution_mode (target_mode target); advance (target_pc target)

-- `if index == 15 && mode == Arm { pc + 8 } else { regs.reg(index) }`.
unfoldable pub reg_or_pc : {M : Type 0} → ExecutionMode → ℕ → ℕ → Exec M ℕ
unfolding reg
reg_or_pc mode pc index = if index == 15 && is_arm mode then pure (add32 pc 8) else reg index

module _ {M : Type 0} ⦃bus : MemoryBus M⦄ where
  unfoldable pub read_arm_word : ℕ → Exec M ℕ
  unfolding read32
  read_arm_word address = do
    word ← read32 (bit_and address (not32 3))
    let rotate = address % 4 * 8
    pure (if rotate == 0 then word else rotate_right word rotate)

  unfoldable pub write_arm_word : ℕ → ℕ → Exec M (Unit {0})
  unfolding write32
  write_arm_word address value = write32 (bit_and address (not32 3)) value

-- The sum, the carry out and the overflow. The sum of u64 does not wrap.
unfoldable pub add_with_carry : ℕ → ℕ → Bool → ℕ × Bool × Bool
unfolding add_overflow
add_with_carry lhs rhs carry_in =
    let wide = lhs + rhs + of_bool carry_in in
    let result = wide % 2 ^ 32 in (result, ltb u32_max wide, add_overflow lhs rhs result)

unfoldable pub arm_immediate_carry : ℕ → Bool → Bool
arm_immediate_carry opcode carry_in =
    let rotate = field opcode 8 4 * 2 in
    if rotate == 0 then carry_in else bit (rotate_right (opcode % 256) rotate) 31

abbrev pub Shifted : Type 0
Shifted = ℕ × Option Bool

-- The shifts by an amount from a register.
unfoldable pub lsl_by : ℕ → ℕ → Shifted
lsl_by value amount =
    if amount == 0
    then (value, none)
    else if leb amount 31
    then (shl32 value amount, some (bit value (32 - amount)))
    else if amount == 32
    then (0, some (value % 2 != 0))
    else (0, some false)

unfoldable pub lsr_by : ℕ → ℕ → Shifted
lsr_by value amount =
    if amount == 0
    then (value, none)
    else if leb amount 31
    then (shr value amount, some (bit value (amount - 1)))
    else if amount == 32
    then (0, some (bit value 31))
    else (0, some false)

unfoldable pub asr_by : ℕ → ℕ → Shifted
asr_by value amount =
    if amount == 0
    then (value, none)
    else if leb amount 31
    then (asr32 value amount, some (bit value (amount - 1)))
    else if bit_and value 0x8000_0000 != 0
    then (u32_max, some true)
    else (0, some false)

unfoldable pub ror_by : ℕ → ℕ → Shifted
ror_by value amount =
    if amount == 0
    then (value, none)
    else let rot = amount % 32 in
      let out = if rot == 0 then value else rotate_right value rot in
      (out, some (if rot == 0 then bit value 31 else bit out 31))

-- The shifts by an immediate amount. `n - 1` underflows at 0, which is a panic.
unfoldable pub lsl_immediate : ℕ → ℕ → Shifted
lsl_immediate value n =
    if n == 0
    then (value, none)
    else if ltb n 32
    then (shl32 value n, some (bit value (32 - n)))
    else if n == 32
    then (0, some (value % 2 != 0))
    else (0, some false)

unfoldable pub lsr_immediate : {M : Type 0} → ℕ → ℕ → Exec M Shifted
unfolding panic
lsr_immediate value n =
    if n == 32
    then pure (0, some (bit value 31))
    else if ltb n 32
    then (if n == 0 then panic else pure (shr value n, some (bit value (n - 1))))
    else pure (0, some false)

unfoldable pub asr_immediate : {M : Type 0} → ℕ → ℕ → Exec M Shifted
unfolding panic
asr_immediate value n =
    if leb 32 n
    then pure (if bit_and value 0x8000_0000 != 0 then (u32_max, some true) else (0, some false))
    else if n == 0
    then panic
    else pure (asr32 value n, some (bit value (n - 1)))

unfoldable pub ror_immediate : ℕ → ℕ → Bool → Shifted
ror_immediate value n carry_in =
    if n == 0
    then (bit_or (of_bool carry_in * 2 ^ 31) (shr value 1), some (value % 2 != 0))
    else let rot = n % 32 in
      let out = if rot == 0 then value else rotate_right value rot in (out, some (bit out 31))

-- `regs.reg(rs) & 0xFF`.
unfoldable pub shift_amount : {M : Type 0} → ℕ → Exec M ℕ
unfolding reg
shift_amount rs = do amount ← reg rs; pure (amount % 256)

unfoldable pub apply_register_shift : {M : Type 0} → ℕ → RegisterShift → Bool → Exec M Shifted
unfolding shift_amount lsl_by lsr_by asr_by ror_by lsl_immediate lsr_immediate asr_immediate
    ror_immediate
apply_register_shift value (lsl n) carry_in = pure (lsl_immediate value n)
apply_register_shift value (lsl_register rs) carry_in = do
  amount ← shift_amount rs
  pure (lsl_by value amount)
apply_register_shift value (lsr n) carry_in = lsr_immediate value n
apply_register_shift value (lsr_register rs) carry_in = do
  amount ← shift_amount rs
  pure (lsr_by value amount)
apply_register_shift value (asr n) carry_in = asr_immediate value n
apply_register_shift value (asr_register rs) carry_in = do
  amount ← shift_amount rs
  pure (asr_by value amount)
apply_register_shift value (ror n) carry_in = pure (ror_immediate value n carry_in)
apply_register_shift value (ror_register rs) carry_in = do
  amount ← shift_amount rs
  pure (ror_by value amount)

-- The indices below `i + n` and from `i` on whose bit is set in the mask, in order.
unfoldable pub mask_registers : ℕ → ℕ → ℕ → List ℕ
mask_registers ℕ.zero i mask = []
mask_registers (suc n) i mask =
    let rest = mask_registers n (i + 1) mask in if bit mask i then i ∷ rest else rest
