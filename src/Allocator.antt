-- ===== src/Allocator.antt =====
-- crates/vmrp-platform/src/lib.rs: the guest heap of the host, a list of free blocks
-- (`DsmHost::heap_blocks`) from which `alloc_raw` takes the first that is large enough.
pub mod Free
pub mod Ext
pub mod Live
pub mod Spaced
pub mod Carve
pub mod Alloc
mod Tests
use vmrp_rust.Prelude.{
  ℕ, ◌+◌, ◌-◌, ◌*◌, ◌/◌, ◌%◌, ◌^◌, min, max, bit_and, Option, none, some, List, [], ◌∷◌, leb, ◌==◌,
  if◌then◌else◌,
}
use vmrp_rust.Word.{add32, sub32, not32}

pub record FreeBlock : Type 0 where
  pub start : ℕ
  pub len : ℕ

-- The part of the host that the allocator changes.
pub record Heap : Type 0 where
  pub heap_blocks : List FreeBlock
  pub memory_manager_min_free : ℕ
  pub memory_manager_peak_used : ℕ

-- `memory_manager_free_bytes`.
unfoldable pub free_bytes : List FreeBlock → ℕ
free_bytes [] = 0
free_bytes (block ∷ blocks) = block.len + free_bytes blocks

-- The first block with `len >= aligned`, which is removed when its length is exact and shortened
-- from below when it is not.
abbrev pub keep : FreeBlock → Option (ℕ × List FreeBlock) → Option (ℕ × List FreeBlock)
keep block none = none
keep block (some (ptr, blocks)) = some (ptr, block ∷ blocks)

unfoldable pub carve : ℕ → List FreeBlock → Option (ℕ × List FreeBlock)
carve aligned [] = none
carve aligned (block ∷ blocks) =
    let rest = carve aligned blocks in
    if leb aligned block.len
    then some (
      block.start,
      if block.len == aligned
          then blocks
          else record { start = add32 block.start aligned; len = sub32 block.len aligned } ∷ blocks,
    )
    else keep block rest

-- `align_up(value, 8)`.
unfoldable pub align_up8 : ℕ → ℕ
align_up8 value = bit_and (add32 value 7) (not32 7)

-- `memory_manager_total_len()`: the layout's size of 6 MiB, at a base that needs no alignment.
abbrev pub memory_manager_total_len : ℕ
memory_manager_total_len = 1024 * 1024 * 6

-- The rest of `alloc_raw`: the marks of the least free and the most used bytes.
abbrev pub finish_alloc : Heap → Option (ℕ × List FreeBlock) → Option ℕ × Heap
finish_alloc heap none = (none, heap)
finish_alloc heap (some (ptr, blocks)) = (
  some ptr,
  record {
    heap_blocks = blocks;
    memory_manager_min_free = min heap.memory_manager_min_free (free_bytes blocks);
    memory_manager_peak_used =
        max heap.memory_manager_peak_used (memory_manager_total_len - free_bytes blocks);
  },
)

unfoldable pub alloc_raw : Heap → ℕ → Option ℕ × Heap
unfolding carve align_up8
alloc_raw heap size = finish_alloc heap (carve (align_up8 (max size 1)) heap.heap_blocks)
