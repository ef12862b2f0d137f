-- ===== src/Allocator/Free.antt =====
-- `DsmHost::free_raw` (crates/vmrp-platform/src/lib.rs): a range goes back to the free blocks, in the
-- place that its address has, and is joined with the block before it and the block after it where
-- they touch.
use vmrp_rust.Prelude.{ℕ, ◌+◌, ◌^◌, max, List, [], ◌∷◌, ltb, leb, ◌==◌, ◌||◌, if◌then◌else◌}
use vmrp_rust.Word.{add32}
pub use vmrp_rust.Abi.Layout.{memory_manager_address}
use vmrp_rust.Allocator.{FreeBlock, Heap, align_up8, memory_manager_total_len}

-- The end of the pool of the default layout.
abbrev pub pool_end : ℕ
pool_end = add32 memory_manager_address memory_manager_total_len

-- The current block is joined with the next one when it ends where that starts.
unfoldable pub join_next : FreeBlock → List FreeBlock → List FreeBlock
join_next current [] = current ∷ []
join_next current (next ∷ rest) =
    if add32 current.start current.len == next.start
    then record { start = current.start; len = add32 current.len next.len } ∷ rest
    else current ∷ next ∷ rest

-- The previous block is joined with the current one when it ends where that starts.
unfoldable pub join_prev : FreeBlock → FreeBlock → List FreeBlock → List FreeBlock
join_prev prev current rest =
    if add32 prev.start prev.len == current.start
    then join_next (record { start = prev.start; len = add32 prev.len current.len }) rest
    else prev ∷ join_next current rest

-- The current block goes before the first block that starts above it; `prev` is the last one passed.
unfoldable pub insert_after : FreeBlock → FreeBlock → List FreeBlock → List FreeBlock
insert_after prev current [] = join_prev prev current []
insert_after prev current (b ∷ bs) =
    let later = insert_after b current bs in
    if ltb current.start b.start then join_prev prev current (b ∷ bs) else prev ∷ later

unfoldable pub insert_free : FreeBlock → List FreeBlock → List FreeBlock
insert_free current [] = join_next current []
insert_free current (b ∷ bs) =
    if ltb current.start b.start then join_next current (b ∷ bs) else insert_after b current bs

-- A range outside the pool is ignored.
unfoldable pub free_raw : Heap → ℕ → ℕ → Heap
unfolding align_up8
free_raw heap addr size =
    let aligned = align_up8 (max size 1) in
    if ltb addr memory_manager_address || leb pool_end addr
    then heap
    else if leb (2 ^ 32) (addr + aligned)
    then heap
    else if ltb pool_end (addr + aligned)
    then heap
    else record heap {
      heap_blocks = insert_free (record { start = addr; len = aligned }) heap.heap_blocks;
    }
