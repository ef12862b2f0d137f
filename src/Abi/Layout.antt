-- ===== src/Abi/Layout.antt =====
-- crates/vmrp-core/src/layout.rs: the regions of the guest's address space. A `GuestAddr`
-- (crates/vmrp-core/src/guest.rs) is its u32.
use vmrp_rust.Prelude.{ℕ, ◌+◌, ◌*◌}

pub record MemoryRegion : Type 0 where
  pub base : ℕ
  pub size : ℕ

pub record AddressSpaceLayout : Type 0 where
  pub code : MemoryRegion
  pub stack : MemoryRegion
  pub memory_manager : MemoryRegion

abbrev pub code_address : ℕ
code_address = 0x8_0000

abbrev pub code_size : ℕ
code_size = 1024 * 1024

abbrev pub stack_address : ℕ
stack_address = code_address + code_size

abbrev pub stack_size : ℕ
stack_size = 1024 * 1024

abbrev pub memory_manager_address : ℕ
memory_manager_address = stack_address + stack_size

abbrev pub memory_manager_size : ℕ
memory_manager_size = 1024 * 1024 * 6

abbrev pub default_layout : AddressSpaceLayout
default_layout = record {
  code = record { base = code_address; size = code_size };
  stack = record { base = stack_address; size = stack_size };
  memory_manager = record { base = memory_manager_address; size = memory_manager_size };
}
