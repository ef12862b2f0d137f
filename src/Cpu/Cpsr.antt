-- ===== src/Cpu/Cpsr.antt =====
-- crates/vmrp-cpu/src/regs.rs, the program status register: the flags N, Z, C, V and the Thumb bit
-- in one u32. A method that takes `&mut self` returns the new register.
pub mod Flags
pub mod Compare
use vmrp_rust.Prelude.{
  ℕ, ◌+◌, ◌^◌, bit_and, bit_or, bit_xor, Bool, true, false, ltb, leb, ◌==◌, ◌!=◌, if◌then◌else◌,
}
use vmrp_rust.Word.{u32_max, not32}

abbrev pub cpsr_t_mask : ℕ
cpsr_t_mask = 2 ^ 5

abbrev pub cpsr_v_mask : ℕ
cpsr_v_mask = 2 ^ 28

abbrev pub cpsr_c_mask : ℕ
cpsr_c_mask = 2 ^ 29

abbrev pub cpsr_z_mask : ℕ
cpsr_z_mask = 2 ^ 30

abbrev pub cpsr_n_mask : ℕ
cpsr_n_mask = 2 ^ 31

pub data ExecutionMode : Type 0 where
  arm thumb : ExecutionMode

-- `mode == ExecutionMode::Arm`.
abbrev pub is_arm : ExecutionMode → Bool
is_arm arm = true
is_arm thumb = false

pub record Cpsr : Type 0 where
  pub bits : ℕ

unfoldable pub execution_mode : Cpsr → ExecutionMode
execution_mode c = if bit_and c.bits cpsr_t_mask != 0 then thumb else arm

unfoldable pub set_execution_mode : Cpsr → ExecutionMode → Cpsr
set_execution_mode c arm = record { bits = bit_and c.bits (not32 cpsr_t_mask) }
set_execution_mode c thumb = record { bits = bit_or c.bits cpsr_t_mask }

unfoldable pub zero_flag : Cpsr → Bool
zero_flag c = bit_and c.bits cpsr_z_mask != 0

unfoldable pub negative : Cpsr → Bool
negative c = bit_and c.bits cpsr_n_mask != 0

unfoldable pub carry : Cpsr → Bool
carry c = bit_and c.bits cpsr_c_mask != 0

unfoldable pub overflow : Cpsr → Bool
overflow c = bit_and c.bits cpsr_v_mask != 0

unfoldable pub set_zero : Cpsr → Bool → Cpsr
set_zero c true = record { bits = bit_or c.bits cpsr_z_mask }
set_zero c false = record { bits = bit_and c.bits (not32 cpsr_z_mask) }

unfoldable pub set_negative : Cpsr → Bool → Cpsr
set_negative c true = record { bits = bit_or c.bits cpsr_n_mask }
set_negative c false = record { bits = bit_and c.bits (not32 cpsr_n_mask) }

unfoldable pub set_carry : Cpsr → Bool → Cpsr
set_carry c true = record { bits = bit_or c.bits cpsr_c_mask }
set_carry c false = record { bits = bit_and c.bits (not32 cpsr_c_mask) }

unfoldable pub set_overflow : Cpsr → Bool → Cpsr
set_overflow c true = record { bits = bit_or c.bits cpsr_v_mask }
set_overflow c false = record { bits = bit_and c.bits (not32 cpsr_v_mask) }

unfoldable pub update_nz : Cpsr → ℕ → Cpsr
update_nz c value = set_negative (set_zero c (value == 0)) (bit_and value cpsr_n_mask != 0)

-- `((lhs ^ result) & (rhs ^ result) & 0x8000_0000) != 0`.
unfoldable pub add_overflow : ℕ → ℕ → ℕ → Bool
add_overflow lhs rhs result =
    bit_and (bit_and (bit_xor lhs result) (bit_xor rhs result)) 0x8000_0000 != 0

-- `((lhs ^ rhs) & (lhs ^ result) & 0x8000_0000) != 0`.
unfoldable pub sub_overflow : ℕ → ℕ → ℕ → Bool
sub_overflow lhs rhs result =
    bit_and (bit_and (bit_xor lhs rhs) (bit_xor lhs result)) 0x8000_0000 != 0

unfoldable pub update_nzcv_add : Cpsr → ℕ → ℕ → ℕ → Cpsr
update_nzcv_add c lhs rhs result =
    set_overflow (set_carry (update_nz c result) (ltb u32_max (lhs + rhs)))
      (add_overflow lhs rhs result)

unfoldable pub update_nzcv_sub : Cpsr → ℕ → ℕ → ℕ → Cpsr
update_nzcv_sub c lhs rhs result =
    set_overflow (set_carry (update_nz c result) (leb rhs lhs)) (sub_overflow lhs rhs result)
