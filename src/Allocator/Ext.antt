-- ===== src/Allocator/Ext.antt =====
-- crates/vmrp-platform/src/lib.rs: the allocations that the guest asks for (`alloc_ext`, `free_ext`,
-- `ext_requested_len`), the cells in guest memory that tell the guest about the heap, and the
-- handlers of malloc, free and realloc.
pub mod Handlers
use vmrp_rust.Prelude.{
  ℕ, ◌+◌, ◌-◌, ◌*◌, ◌^◌, min, max, Option, none, some, List, [], ◌∷◌, ltb, leb, ◌==◌, ◌||◌,
  if◌then◌else◌,
}
use vmrp_rust.Prelude.Result
use vmrp_rust.Prelude.Result.{Result}
use vmrp_rust.Prelude.State.{Stateful, pure, modify, gets, ◌>>=◌, ◌>>◌}
use vmrp_rust.Word.{add32, sub32}
use vmrp_rust.Cpu.Regs.{CpuRegs}
use vmrp_rust.Cpu.Memory.{MemoryAccessError, MemoryBus}
use vmrp_rust.Allocator.{FreeBlock, Heap, free_bytes, alloc_raw, memory_manager_total_len}
use vmrp_rust.Allocator.Free.{memory_manager_address, pool_end, free_raw}

pub record HostAllocation : Type 0 where
  pub raw_addr : ℕ
  pub requested_len : ℕ

-- A `BTreeMap<u32, HostAllocation>`: the order of the keys is not read.
abbrev pub Allocations : Type 0
Allocations = List (ℕ × HostAllocation)

abbrev pub get : ℕ → Allocations → Option HostAllocation
get key [] = none
get key ((k, a) ∷ rest) = if k == key then some a else get key rest

abbrev pub remove : ℕ → Allocations → Allocations
remove key [] = []
remove key ((k, a) ∷ rest) = if k == key then remove key rest else (k, a) ∷ remove key rest

abbrev pub insert : ℕ → HostAllocation → Allocations → Allocations
insert key a m = (key, a) ∷ remove key m

-- The host, as far as the allocator uses it, with the machine whose memory and registers it changes.
pub record Host (M : Type 0) : Type 0 where
  pub heap : Heap
  pub ext_allocations : Allocations
  pub mr_table_addr : ℕ
  pub memory : M
  pub regs : CpuRegs

abbrev pub saturating_add32 : ℕ → ℕ → ℕ
saturating_add32 a b = min (a + b) (2 ^ 32 - 1)

abbrev pub of_write :
    {M : Type 0}
    → Host M
    → Result MemoryAccessError (Unit {0}) × M
    → Result MemoryAccessError (Unit {0}) × Host M
of_write h (r, m) = (r, record h { memory = m })

abbrev pub freed : {M : Type 0} → ℕ → Host M → Option HostAllocation → Host M
freed ptr h none = h
freed ptr h (some a) = record h {
  heap = free_raw h.heap a.raw_addr (saturating_add32 a.requested_len 4);
  ext_allocations = remove ptr h.ext_allocations;
}

unfoldable pub free_ext : {M : Type 0} → ℕ → Host M → Host M
unfolding free_raw
free_ext ptr h = if ptr == 0 then h else freed ptr h (get ptr h.ext_allocations)

-- `memory_manager_cell_addr`.
abbrev pub cell : ℕ → ℕ → ℕ
cell mr_table_addr offset = add32 (add32 mr_table_addr 0x300) offset

module _ {M : Type 0} ⦃bus : MemoryBus M⦄ where
  unfoldable pub write32 : ℕ → ℕ → Stateful (Host M) MemoryAccessError (Unit {0})
  write32 addr value h = of_write h (bus.write32 h.memory addr value)

  -- The rest of `alloc_ext`, once `alloc_raw` has answered.
  abbrev pub record_allocation :
      ℕ → Host M → Option ℕ × Heap → Result MemoryAccessError (Option ℕ) × Host M
  record_allocation size h (none, heap) = (Result.ok none, record h { heap = heap })
  record_allocation size h (some raw_addr, heap) =
      (do
        write32 raw_addr size
        modify (λ h'. record h' {
          ext_allocations =
              insert (add32 raw_addr 4) (record { raw_addr = raw_addr; requested_len = size })
                h'.ext_allocations;
        })
        pure (some (add32 raw_addr 4)))
        (record h { heap = heap })

  unfoldable pub alloc_ext : ℕ → Stateful (Host M) MemoryAccessError (Option ℕ)
  unfolding alloc_raw write32
  alloc_ext size h =
      if size == 0
      then (Result.ok none, h)
      else record_allocation size h (alloc_raw h.heap (saturating_add32 size 4))

  abbrev pub requested : ℕ → Host M → Option HostAllocation → Result MemoryAccessError ℕ
  requested ptr h none = if leb 4 ptr then bus.read32 h.memory (sub32 ptr 4) else Result.ok 0
  requested ptr h (some a) = Result.ok a.requested_len

  unfoldable pub ext_requested_len : ℕ → Stateful (Host M) MemoryAccessError ℕ
  ext_requested_len ptr h = (requested ptr h (get ptr h.ext_allocations), h)

  -- The six cells from 0x300 above the table, written in this order.
  unfoldable pub sync_memory_manager_cells : Stateful (Host M) MemoryAccessError (Unit {0})
  unfolding write32 free_bytes
  sync_memory_manager_cells h =
      (do
        write32 (cell h.mr_table_addr 0x00) memory_manager_address
        write32 (cell h.mr_table_addr 0x04) memory_manager_total_len
        write32 (cell h.mr_table_addr 0x08) pool_end
        write32 (cell h.mr_table_addr 0x0c) (free_bytes h.heap.heap_blocks)
        write32 (cell h.mr_table_addr 0x10) h.heap.memory_manager_min_free
        write32 (cell h.mr_table_addr 0x14) h.heap.memory_manager_peak_used)
        h

  unfoldable pub reset_alloc : Stateful (Host M) MemoryAccessError (Unit {0})
  unfolding sync_memory_manager_cells
  reset_alloc = do
    modify (λ h. record h {
      heap = record {
        heap_blocks =
            record { start = memory_manager_address; len = memory_manager_total_len } ∷ [];
        memory_manager_min_free = memory_manager_total_len;
        memory_manager_peak_used = 0;
      };
      ext_allocations = [];
    })
    sync_memory_manager_cells

  unfoldable pub alloc_guest_block : ℕ → Stateful (Host M) MemoryAccessError (Option ℕ)
  unfolding alloc_ext sync_memory_manager_cells
  alloc_guest_block len = do ptr ← alloc_ext len; sync_memory_manager_cells; pure ptr
