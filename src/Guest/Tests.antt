-- ===== src/Guest/Tests.antt =====
-- Calls of the memory services on a concrete host, and the theorem at a concrete input.
use vmrp_rust.Prelude.{ℕ, ◌≡◌, refl, [], ◌==◌, if◌then◌else◌, arith}
use vmrp_rust.Prelude.Result.{ok}
use vmrp_rust.Cpu.Memory.{TestMemory, test_memory_bus, read8, offset_for}
use vmrp_rust.Allocator.Ext.{Host}
use vmrp_rust.Guest.{handle_memmove, strlen_from, find_from}
use vmrp_rust.Guest.Moved.{Moved, handle_memmove-Moved}

-- The bytes 0 to 15 at 0x100, and three registers.
abbrev host : ℕ → ℕ → ℕ → Host TestMemory
host r0 r1 r2 = record {
  heap = record { heap_blocks = []; memory_manager_min_free = 0; memory_manager_peak_used = 0 };
  ext_allocations = [];
  mr_table_addr = 0x100;
  memory = record { base = 0x100; len = 16; byte = λ i. i };
  regs = record {
    regs = λ i. if i == 0 then r0 else if i == 1 then r1 else r2;
    cpsr = record { bits = 0x10 };
  };
}

-- The first byte is zero, and the fourth is the first that is 3.
strlen-host : (strlen_from 0x100 0 4096 (host 0 0 0)).0 ≡ ok 0
unfolding strlen_from read8 offset_for
strlen-host = refl

find-host : (find_from 0x100 3 0 8 (host 0 0 0)).0 ≡ ok 0x103
unfolding find_from read8 offset_for
find-host = refl

-- Eight bytes from 0x102 to 0x104, which overlap.
handle_memmove-Moved_example :
    Moved (host 0x104 0x102 8) 0x104 0x102 8 (handle_memmove (host 0x104 0x102 8))
handle_memmove-Moved_example =
    handle_memmove-Moved (host 0x104 0x102 8)
      (record { above = omega arith; below = omega arith; sized = omega arith })
      (record { above = omega arith; below = omega arith; sized = omega arith }) (omega arith)
