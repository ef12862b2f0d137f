-- ===== src/Allocator/Live/Tests.antt =====
-- Runs of the guest's allocations on a concrete host, and the theorems at concrete inputs.
use vmrp_rust.Prelude.{ℕ, ◌*◌, ◌≡◌, refl, some, List, [], ◌∷◌, ◌==◌, if◌then◌else◌, arith}
use vmrp_rust.Prelude.Result.{ok}
use vmrp_rust.Cpu.Regs.{CpuRegs}
use vmrp_rust.Cpu.Memory.{TestMemory, test_memory_bus, write32, offset_for}
use vmrp_rust.Allocator.{memory_manager_total_len}
use vmrp_rust.Allocator.Free.{
  memory_manager_address, insert_free, insert_after, join_prev, join_next,
}
use vmrp_rust.Allocator.Ext.{Host, alloc_ext, reset_alloc}
use vmrp_rust.Allocator.Live.Calls.{LiveHost}
use vmrp_rust.Allocator.Live.Sequences.{Call, perform_all, reset_alloc-IsLive}
use vmrp_rust.Allocator.Live.FreesBack.{FreesBack, alloc_ext-FreesBack}

abbrev regs_of : ℕ → ℕ → CpuRegs
regs_of r0 r1 = record {
  regs = λ i. if i == 0 then r0 else if i == 1 then r1 else 0;
  cpsr = record { bits = 0x10 };
}

abbrev ram : TestMemory
ram = record { base = 0x8_0000; len = 1024 * 1024 * 8; byte = λ _. 0 }

abbrev host : Host TestMemory
host = record {
  heap = record {
    heap_blocks = record { start = memory_manager_address; len = memory_manager_total_len } ∷ [];
    memory_manager_min_free = memory_manager_total_len;
    memory_manager_peak_used = 0;
  };
  ext_allocations = [];
  mr_table_addr = 0x8_0000;
  memory = ram;
  regs = regs_of 0 0;
}

-- 20 bytes and their length take 24.
alloc_ext-host : (alloc_ext 20 host).0 ≡ ok (some 0x28_0004)
unfolding alloc_ext write32 offset_for
alloc_ext-host = refl

alloc_ext-next : (alloc_ext 5 ((alloc_ext 20 host).1)).0 ≡ ok (some 0x28_001c)
unfolding alloc_ext write32 offset_for
alloc_ext-next = refl

-- The block between two free blocks joins them.
insert_free-joins :
    insert_free
      (record { start = 8; len = 8 })
      (record { start = 0; len = 8 } ∷ record { start = 16; len = 8 } ∷ [])
    ≡ record { start = 0; len = 24 } ∷ []
unfolding insert_free insert_after join_prev join_next
insert_free-joins = refl

host-IsLive : LiveHost host
host-IsLive = record { spaced = (omega arith, omega arith, omega arith); all_held = tt }

abbrev calls : List (Call TestMemory)
calls =
    Call.malloc (regs_of 20 0) ram
    ∷ Call.realloc (regs_of 0x28_0004 100) ram
    ∷ Call.free (regs_of 0x28_001c 0) ram
    ∷ []

reset_alloc-IsLive_example : LiveHost (perform_all calls (reset_alloc host).1)
reset_alloc-IsLive_example = reset_alloc-IsLive calls host (omega arith, (omega arith, (tt, tt)))

alloc_ext-FreesBack_example : FreesBack host (alloc_ext 20 host)
alloc_ext-FreesBack_example = alloc_ext-FreesBack host host-IsLive 20 (omega arith)
