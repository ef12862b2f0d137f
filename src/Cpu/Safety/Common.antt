-- ===== src/Cpu/Safety/Common.antt =====
-- The helpers of crates/vmrp-cpu/src/execute.rs keep the registers u32 and never panic.
use vmrp_rust.Prelude.{
  ℕ, zero, suc, ◌+◌, ◌*◌, ◌%◌, ◌^◌, ◌≤◌, ◌<◌, bit_and, bit_or, ◌≡◌, Bool, true, false, ◌==◌, ◌&&◌,
  ◌!=◌, arith, some, All, if◌then◌else◌, leb, ltb, of_bool,
}
use vmrp_rust.Word.{IsU32, not32, u32_max, shr, rotate_right}
use vmrp_rust.Word.Bounds.{bit_and-IsU32, bit_or-IsU32, rotate_right-IsU32, shr-IsU32, asr32-IsU32}
use vmrp_rust.Cpu.Cpsr.{ExecutionMode, is_arm}
use vmrp_rust.Cpu.Memory.{MemoryBus}
use vmrp_rust.Cpu.Decode.{
  RegisterShift, lsl, lsl_register, lsr, lsr_register, asr, asr_register, ror, ror_register,
}
use vmrp_rust.Cpu.Machine.{Exec, pure, ◌>>=◌}
use vmrp_rust.Cpu.Safety.{
  MemoryInvariant, Safely, Done, Safely-bind, Safely-then, Safely-pure, Safely-if, Safely-cases,
  reg-Safely, set_reg-Safely, set_pc-Safely, push_write-Safely, set_execution_mode-Safely, ReadsFit,
  read32-Safely, write32-Safely,
}
use vmrp_rust.Cpu.Execute.Common.{
  when, write_reg, advance, write_result_and_advance, target_pc, exchange, reg_or_pc, read_arm_word,
  write_arm_word, lsl_by, lsr_by, asr_by, ror_by, lsl_immediate, lsr_immediate, asr_immediate,
  ror_immediate, shift_amount, apply_register_shift, mask_registers, Shifted,
}

pub when-Safely :
    {M : Type 0} ⦃inv : MemoryInvariant M⦄ (b : Bool) {m : Exec M (Unit {0})}
    → Safely Done m
    → Safely Done (when b m)
when-Safely true h = h
when-Safely false h = Safely-pure tt tt

target_pc-IsU32 : (target : ℕ) → IsU32 target → IsU32 (target_pc target)
unfolding target_pc
target_pc-IsU32 target h =
    ground (arith, bit_and-IsU32 target (not32 1), bit_and-IsU32 target (not32 3))

module _ {M : Type 0} ⦃inv : MemoryInvariant M⦄ where
  pub write_reg-Safely :
      (i value : ℕ) → i < 16 → IsU32 value → Safely {M = M} Done (write_reg i value)
  unfolding write_reg
  write_reg-Safely i value h fits = search (Safely-then, set_reg-Safely, push_write-Safely)

  pub advance-Safely : (value : ℕ) → IsU32 value → Safely {M = M} Done (advance value)
  unfolding advance
  advance-Safely value fits = search (Safely-then, set_pc-Safely, push_write-Safely)

  pub write_result_and_advance-Safely :
      (rd value next_pc : ℕ)
      → rd < 16
      → IsU32 value
      → IsU32 next_pc
      → Safely {M = M} Done (write_result_and_advance rd value next_pc)
  unfolding write_result_and_advance
  write_result_and_advance-Safely rd value next_pc h p q =
      search (Safely-if, Safely-then, advance-Safely, write_reg-Safely)

  pub exchange-Safely : (target : ℕ) → IsU32 target → Safely {M = M} Done (exchange target)
  unfolding exchange
  exchange-Safely target h =
      search (Safely-then, set_execution_mode-Safely, advance-Safely, target_pc-IsU32)

  pub reg_or_pc-Safely :
      (mode : ExecutionMode) (pc index : ℕ)
      → index < 16
      → Safely {M = M} IsU32 (reg_or_pc mode pc index)
  unfolding reg_or_pc
  reg_or_pc-Safely mode pc index h =
      Safely-if (index == 15 && is_arm mode) (Safely-pure _ (omega arith)) (reg-Safely index h)

module _ {M : Type 0} ⦃inv : MemoryInvariant M⦄ ⦃bus : MemoryBus M⦄ (fit : ReadsFit bus) where
  pub read_arm_word-Safely : (address : ℕ) → Safely {M = M} IsU32 (read_arm_word address)
  unfolding read_arm_word
  read_arm_word-Safely address =
      Safely-bind (read32-Safely fit _) λ word h. Safely-pure _ (rotated word h)
    where
      rotated :
          (word : ℕ)
          → IsU32 word
          → IsU32 (if address % 4 * 8 == 0 then word else rotate_right word (address % 4 * 8))
      rotated word h = ground (arith, rotate_right-IsU32 word h (address % 4 * 8))

  pub write_arm_word-Safely :
      (address value : ℕ) → IsU32 value → Safely {M = M} Done (write_arm_word address value)
  unfolding write_arm_word
  write_arm_word-Safely address value h = write32-Safely fit _ value h

-- The result of a shift is a u32.
abbrev pub Fits : Shifted → Type 0
Fits p = IsU32 p.0

module _ (value : ℕ) (h : IsU32 value) where
  lsl_by-Fits : (n : ℕ) → Fits (lsl_by value n)
  unfolding lsl_by
  lsl_by-Fits n = ground arith

  lsr_by-Fits : (n : ℕ) → Fits (lsr_by value n)
  unfolding lsr_by
  lsr_by-Fits n = ground (arith, shr-IsU32 value h n)

  asr_by-Fits : (n : ℕ) → Fits (asr_by value n)
  unfolding asr_by
  asr_by-Fits n = ground (arith, asr32-IsU32 value h n)

  ror_by-Fits : (n : ℕ) → Fits (ror_by value n)
  unfolding ror_by
  ror_by-Fits n = ground (arith, rotate_right-IsU32 value h (n % 32))

  lsl_immediate-Fits : (n : ℕ) → Fits (lsl_immediate value n)
  unfolding lsl_immediate
  lsl_immediate-Fits n = ground arith

  carry_in-IsU32 : (c : Bool) → IsU32 (bit_or (of_bool c * 2 ^ 31) (shr value 1))
  carry_in-IsU32 true = bit_or-IsU32 _ _ (omega arith) (shr-IsU32 value h 1)
  carry_in-IsU32 false = bit_or-IsU32 _ _ (omega arith) (shr-IsU32 value h 1)

  ror_immediate-Fits : (n : ℕ) (c : Bool) → Fits (ror_immediate value n c)
  unfolding ror_immediate
  ror_immediate-Fits n c = ground (arith, rotate_right-IsU32 value h (n % 32), carry_in-IsU32 c)

-- The shifts that the decoder makes: register indices below 16, and no `lsr` or `asr` by 0.
abbrev pub IsShift : RegisterShift → Type 0
IsShift (lsl n) = Unit {0}
IsShift (lsl_register rs) = rs < 16
IsShift (lsr n) = 0 < n
IsShift (lsr_register rs) = rs < 16
IsShift (asr n) = 0 < n
IsShift (asr_register rs) = rs < 16
IsShift (ror n) = Unit {0}
IsShift (ror_register rs) = rs < 16

not_zero : (n : ℕ) → 0 < n → (n == 0) ≡ true → ⊥
not_zero n p z = ground arith

module _ {M : Type 0} ⦃inv : MemoryInvariant M⦄ (value : ℕ) (h : IsU32 value) where
  lsr_immediate-Safely : (n : ℕ) → 0 < n → Safely {M = M} Fits (lsr_immediate value n)
  unfolding lsr_immediate
  lsr_immediate-Safely n p = Safely-if (n == 32) (Safely-pure _ (omega arith)) (
      Safely-if (ltb n 32)
        (Safely-cases (n == 0) (λ z. absurd (not_zero n p z))
          λ _. Safely-pure _ (shr-IsU32 value h n))
        (Safely-pure _ (omega arith)))

  asr_immediate-Safely : (n : ℕ) → 0 < n → Safely {M = M} Fits (asr_immediate value n)
  unfolding asr_immediate
  asr_immediate-Safely n p =
      Safely-cases (leb 32 n) (λ _. Safely-pure _ saturated)
        λ small.
          Safely-cases (n == 0) (λ z. absurd (not_zero n p z))
            λ _. Safely-pure _ (asr32-IsU32 value h n (ground arith))
    where
      saturated :
          Fits (if bit_and value 0x8000_0000 != 0 then (u32_max, some true) else (0, some false))
      saturated = ground arith

  register_shift-Safely :
      (rs : ℕ) (by : ℕ → Shifted)
      → rs < 16
      → ((n : ℕ) → Fits (by n))
      → Safely {M = M} Fits (shift_amount rs >>= λ amount. pure (by amount))
  unfolding shift_amount
  register_shift-Safely rs by p fits =
      Safely-bind (Safely-bind (reg-Safely rs p) λ a _. Safely-pure {Q = λ _. Unit {0}} _ tt)
        λ amount _. Safely-pure _ (fits amount)

  pub apply_register_shift-Safely :
      (shift : RegisterShift) (c : Bool)
      → IsShift shift
      → Safely {M = M} Fits (apply_register_shift value shift c)
  unfolding apply_register_shift
  apply_register_shift-Safely (lsl n) c p = Safely-pure _ (lsl_immediate-Fits value h n)
  apply_register_shift-Safely (lsl_register rs) c p =
      register_shift-Safely rs _ p (lsl_by-Fits value h)
  apply_register_shift-Safely (lsr n) c p = lsr_immediate-Safely n p
  apply_register_shift-Safely (lsr_register rs) c p =
      register_shift-Safely rs _ p (lsr_by-Fits value h)
  apply_register_shift-Safely (asr n) c p = asr_immediate-Safely n p
  apply_register_shift-Safely (asr_register rs) c p =
      register_shift-Safely rs _ p (asr_by-Fits value h)
  apply_register_shift-Safely (ror n) c p = Safely-pure _ (ror_immediate-Fits value h n c)
  apply_register_shift-Safely (ror_register rs) c p =
      register_shift-Safely rs _ p (ror_by-Fits value h)

-- The indices that a mask of 16 bits names are register indices.
pub mask_registers-All : (n i mask : ℕ) → i + n ≤ 16 → All (λ r. r < 16) (mask_registers n i mask)
unfolding mask_registers
mask_registers-All zero i mask h = tt
mask_registers-All (suc n) i mask h = ground (arith, mask_registers-All n (i + 1) mask)
