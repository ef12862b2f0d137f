-- ===== src/Allocator/Alloc.antt =====
-- `DsmHost::alloc_raw` (crates/vmrp-platform/src/lib.rs) as a whole: the rounding of the size and the
-- heap that it leaves.
use vmrp_rust.Prelude.{
  ℕ, ◌+◌, ◌-◌, ◌*◌, ◌/◌, ◌%◌, ◌^◌, ◌≤◌, ◌<◌, max, bit_and, ◌≡◌, Option, none, some, List, All,
  arith,
}
use vmrp_rust.Word.{add32, not32}
use vmrp_rust.Word.Bits.{bit_and_split, bit_and-ones, bit_and-zero}
use vmrp_rust.Allocator.{FreeBlock, Heap, free_bytes, align_up8, finish_alloc, alloc_raw}
use vmrp_rust.Allocator.Carve.{IsOrdered, Apart, Carved, exhausted, taken, carve-Carved}

clear_7 : (a : ℕ) → a < 2 ^ 32 → bit_and a (not32 7) ≡ a / 8 * 8
clear_7 a h =
    omega (arith, bit_and_split 3 a (not32 7), bit_and-ones 29 (a / 8), bit_and-zero (a % 8))

-- The size is rounded up to the next multiple of 8, when that fits a u32.
pub align_up8_lem :
    (value : ℕ)
    → value ≤ 2 ^ 32 - 8
    → (value ≤ align_up8 value) × (align_up8 value < value + 8) × (align_up8 value % 8 ≡ 0)
unfolding align_up8
align_up8_lem value h = ground (arith, clear_7 (add32 value 7) (omega arith))

-- The bytes that an allocation takes.
abbrev pub taken_bytes : ℕ → ℕ
taken_bytes size = align_up8 (max size 1)

-- An allocation of `size` bytes: it is refused, with every block too short and the heap as before, or
-- it answers a range within the heap which holds `size` bytes, which no block left free meets, and
-- the bytes of which have left the free bytes.
pub data Allocated (lo hi size : ℕ) (heap : Heap) : Option ℕ × Heap → Type 0 where
  refused :
      All (λ b. b.len < taken_bytes size) heap.heap_blocks → Allocated lo hi size heap (none, heap)
  granted :
      {ptr : ℕ} {left : Heap}
      → lo ≤ ptr
      → ptr + size ≤ hi
      → size ≤ taken_bytes size
      → IsOrdered lo left.heap_blocks hi
      → All (Apart ptr (taken_bytes size)) left.heap_blocks
      → free_bytes heap.heap_blocks ≡ taken_bytes size + free_bytes left.heap_blocks
      → Allocated lo hi size heap (some ptr, left)

module _ (lo hi size : ℕ) (heap : Heap) (fits : hi < 2 ^ 32) (small : size ≤ 2 ^ 32 - 8) where
  rounded : size ≤ taken_bytes size
  rounded = omega (arith, (align_up8_lem (max size 1) (omega arith)).0)

  finish_alloc-Allocated :
      (x : Option (ℕ × List FreeBlock))
      → Carved lo hi (taken_bytes size) heap.heap_blocks x
      → Allocated lo hi size heap (finish_alloc heap x)
  finish_alloc-Allocated _ (exhausted all) = refused all
  finish_alloc-Allocated _ (taken above below ordered apart total) =
      granted above (omega (arith, rounded)) rounded ordered apart total

  -- From ordered free blocks within a heap below 2 ^ 32, a request of at most 2 ^ 32 - 8 bytes is
  -- refused, with all blocks too short and nothing changed, or granted a range of the heap that holds
  -- it and that no block left free meets; the blocks left are ordered, and the free bytes are fewer
  -- by exactly the bytes taken.
  pub alloc_raw-Allocated :
      IsOrdered lo heap.heap_blocks hi → Allocated lo hi size heap (alloc_raw heap size)
  unfolding alloc_raw
  alloc_raw-Allocated h = finish_alloc-Allocated _ (
      carve-Carved hi (taken_bytes size) fits
        (omega (arith, (align_up8_lem (max size 1) (omega arith)).0)) lo heap.heap_blocks h)
