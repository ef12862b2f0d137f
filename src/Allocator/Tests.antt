-- ===== src/Allocator/Tests.antt =====
-- Runs of the allocator on concrete heaps, and the theorem at a concrete input.
use vmrp_rust.Prelude.{◌≡◌, refl, some, [], ◌∷◌, arith}
use vmrp_rust.Allocator.{Heap, align_up8, alloc_raw}
use vmrp_rust.Allocator.Carve.{IsOrdered}
use vmrp_rust.Allocator.Alloc.{Allocated, alloc_raw-Allocated}

abbrev two_blocks : Heap
two_blocks = record {
  heap_blocks =
      record { start = 0x28_0000; len = 8 } ∷ record { start = 0x28_0010; len = 0x100 } ∷ [];
  memory_manager_min_free = 0x108;
  memory_manager_peak_used = 0;
}

alloc_raw-two_blocks : (alloc_raw two_blocks 20).0 ≡ some 0x28_0010
unfolding alloc_raw
alloc_raw-two_blocks = refl

-- A size that rounds up to 2 ^ 32 takes no bytes at all.
align_up8-wraps : align_up8 0xffff_ffff ≡ 0
unfolding align_up8
align_up8-wraps = refl

two_blocks-IsOrdered : IsOrdered 0x28_0000 two_blocks.heap_blocks 0x88_0000
two_blocks-IsOrdered = (omega arith, omega arith, (omega arith, omega arith, omega arith))

alloc_raw-Allocated_example : Allocated 0x28_0000 0x88_0000 20 two_blocks (alloc_raw two_blocks 20)
alloc_raw-Allocated_example =
    alloc_raw-Allocated 0x28_0000 0x88_0000 20 two_blocks (omega arith) (omega arith)
      two_blocks-IsOrdered
