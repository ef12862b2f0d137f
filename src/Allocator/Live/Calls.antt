-- ===== src/Allocator/Live/Calls.antt =====
-- `alloc_ext` and `free_ext` (crates/vmrp-platform/src/lib.rs) keep the live allocations apart.
use vmrp_rust.Prelude.{
  ℕ, ◌+◌, ◌-◌, ◌^◌, ◌≤◌, ◌<◌, ◌≡◌, max, Option, none, some, List, [], ◌∷◌, All, true, false, ◌==◌,
  if◌then◌else◌, arith,
}
use vmrp_rust.Prelude.Result.{Result}
use vmrp_rust.Prelude.State.{and_then, pure, modify, ◌>>◌}
use vmrp_rust.Word.{add32}
use vmrp_rust.Cpu.Memory.{MemoryAccessError, MemoryBus}
use vmrp_rust.Allocator.{FreeBlock, Heap, finish_alloc, alloc_raw}
use vmrp_rust.Allocator.Alloc.{taken_bytes, align_up8_lem}
use vmrp_rust.Allocator.Free.{memory_manager_address, pool_end, free_raw, insert_free}
use vmrp_rust.Allocator.Carve.{Apart, Carved, carve-Carved}
use vmrp_rust.Allocator.Spaced.{IsSpaced-IsOrdered}
use vmrp_rust.Allocator.Spaced.Insert.{Inserted, insert_free-Inserted}
use vmrp_rust.Allocator.Spaced.Restore.{Restorable, carve-Restorable}
use vmrp_rust.Allocator.Ext.{
  HostAllocation, Allocations, Host, get, remove, saturating_add32, free_ext, freed, alloc_ext,
  record_allocation, write32, of_write, insert,
}
use vmrp_rust.Allocator.Live.{
  held, Clear, range, IsHeld, AllHeld, IsLive, Found, get-Found, All-remove, AllHeld-remove,
  swap-Clear,
}

-- The invariant, of the host.
abbrev pub LiveHost : {M : Type 0} → Host M → Type 0
LiveHost h = IsLive h.heap h.ext_allocations

pub free_raw-IsHeld :
    (heap : Heap) (key : ℕ) (a : HostAllocation)
    → IsHeld key a
    → free_raw heap a.raw_addr (saturating_add32 a.requested_len 4)
      ≡ record heap { heap_blocks = insert_free (range a) heap.heap_blocks }
unfolding free_raw
free_raw-IsHeld heap key a h = ground (arith, h.above, h.below, h.enough)

freed-AllHeld :
    (before after : List FreeBlock) (a : HostAllocation) (m : Allocations)
    → Inserted memory_manager_address pool_end (range a) before after
    → All (λ e. Clear (e.1) (range a)) m
    → AllHeld before m
    → AllHeld after m
freed-AllHeld before after a [] r c h = tt
freed-AllHeld before after a ((k, b) ∷ rest) r c h = (
  h.0,
  r.clear b.raw_addr (held b) (omega (arith, h.0.enough)) c.0 h.1,
  h.2,
  freed-AllHeld before after a rest r c.1 h.3,
)

freed-IsLive :
    {M : Type 0} (ptr : ℕ) (h : Host M) (x : Option HostAllocation)
    → Found h.heap.heap_blocks ptr h.ext_allocations x
    → LiveHost h
    → LiveHost (freed ptr h x)
freed-IsLive ptr h none f l = l
freed-IsLive ptr h (some a) f l =
    let r =
      insert_free-Inserted pool_end (omega arith) (range a) (omega (arith, f.0.enough)) f.0.below
        memory_manager_address h.heap.heap_blocks f.0.above l.spaced f.1 in
    coe 1 0 (i. IsLive (free_raw-IsHeld h.heap ptr a f.0 i) (remove ptr h.ext_allocations))
      (record {
        spaced = r.spaced;
        all_held =
            freed-AllHeld _ _ a (remove ptr h.ext_allocations) r f.2
              (AllHeld-remove h.heap.heap_blocks ptr h.ext_allocations l.all_held);
      })

pub free_ext-IsLive : {M : Type 0} (ptr : ℕ) (h : Host M) → LiveHost h → LiveHost (free_ext ptr h)
unfolding free_ext
free_ext-IsLive ptr h l =
    elim (ptr == 0) as (λ t. LiveHost (if t then h else freed ptr h (get ptr h.ext_allocations))) [
      | true ↦ l
      | false ↦
          freed-IsLive ptr h (get ptr h.ext_allocations)
            (get-Found h.heap.heap_blocks ptr h.ext_allocations l.all_held) l
    ]

-- What `alloc_raw` leaves beside the live allocations: nothing is changed, or a new allocation of
-- `size` bytes may join them.
data Offered (size : ℕ) (heap : Heap) (m : Allocations) : Option ℕ × Heap → Type 0 where
  refused : {left : Heap} → IsLive left m → Offered size heap m (none, left)
  granted :
      {raw : ℕ} {left : Heap}
      → IsLive left m
      → IsLive left
          ((add32 raw 4, record { raw_addr = raw; requested_len = size }) ∷ remove (add32 raw 4) m)
      → Offered size heap m (some raw, left)

module _ (heap : Heap) (m : Allocations) (l : IsLive heap m) (size : ℕ)
    (small : size ≤ 2 ^ 32 - 12) where
  total : saturating_add32 size 4 ≡ size + 4
  total = omega (arith, small)

  pub rounded : size + 4 ≤ taken_bytes (saturating_add32 size 4)
  rounded = omega (
    arith,
    total,
    small,
    (align_up8_lem (max (saturating_add32 size 4) 1) (omega (arith, small))).0,
  )

  -- The live allocations, with the blocks that are left.
  left-AllHeld :
      (left : List FreeBlock) (new : HostAllocation)
      → ((p n : ℕ)
          → 0 < n
          → All (Apart p n) heap.heap_blocks
          → Apart p n (range new) × All (Apart p n) left)
      → (m : Allocations) → AllHeld heap.heap_blocks m
      → AllHeld left m × All (λ e. Clear (e.1) (range new)) m
  left-AllHeld left new clear [] h = (tt, tt)
  left-AllHeld left new clear ((k, a) ∷ rest) h =
      let c = clear a.raw_addr (held a) (omega (arith, h.0.enough)) h.1 in
      let later = left-AllHeld left new clear rest h.3 in ((h.0, c.1, h.2, later.0), (c.0, later.1))

  swapped :
      (new : HostAllocation) (m : Allocations)
      → All (λ e. Clear (e.1) (range new)) m
      → All (λ e. Clear new (range (e.1))) m
  swapped new [] h = tt
  swapped new ((k, a) ∷ rest) h = (swap-Clear a new h.0, swapped new rest h.1)

  offered :
      (x : Option (ℕ × List FreeBlock))
      → Restorable memory_manager_address pool_end
          (taken_bytes (saturating_add32 size 4))
          heap.heap_blocks
          x
      → Carved memory_manager_address pool_end
          (taken_bytes (saturating_add32 size 4))
          heap.heap_blocks
          x
      → Offered size heap m (finish_alloc heap x)
  offered _ Restorable.exhausted (Carved.exhausted _) = refused l
  offered _ (Restorable.taken {ptr} {left} above below spaced clear back)
        (Carved.taken _ _ _ apart _) =
      let new : HostAllocation = record { raw_addr = ptr; requested_len = size } in
      let both = left-AllHeld left new clear m l.all_held in
      granted (record { spaced = spaced; all_held = both.0 })
        (record {
          spaced = spaced;
          all_held = (
            record { keyed = omega (arith, below); above = above; below = below; enough = rounded },
            apart,
            swapped new (remove (add32 ptr 4) m)
                (All-remove (λ x. Clear x (range new)) (add32 ptr 4) m both.1),
            AllHeld-remove left (add32 ptr 4) m both.0,
          );
        })

  alloc_raw-Offered : Offered size heap m (alloc_raw heap (saturating_add32 size 4))
  unfolding alloc_raw
  alloc_raw-Offered =
      offered _
        (carve-Restorable pool_end (taken_bytes (saturating_add32 size 4)) (omega arith)
          (omega (arith, rounded)) memory_manager_address heap.heap_blocks l.spaced)
        (carve-Carved pool_end (taken_bytes (saturating_add32 size 4)) (omega arith)
          (omega (arith, rounded)) memory_manager_address heap.heap_blocks
          (IsSpaced-IsOrdered memory_manager_address heap.heap_blocks pool_end (omega arith)
            l.spaced))

module _ {M : Type 0} ⦃bus : MemoryBus M⦄ (h : Host M) (l : LiveHost h) (size : ℕ)
    (small : size ≤ 2 ^ 32 - 12) where
  stored :
      (raw : ℕ) (left : Heap) (x : Result MemoryAccessError (Unit {0}) × M)
      → IsLive left h.ext_allocations
      → IsLive left (
          (add32 raw 4, record { raw_addr = raw; requested_len = size })
          ∷ remove (add32 raw 4) h.ext_allocations)
      → LiveHost (
          (and_then (of_write (record h { heap = left }) x) (λ _.
            modify (λ h'. record h' {
              ext_allocations =
                  insert
                    (add32 raw 4)
                    (record { raw_addr = raw; requested_len = size })
                    h'.ext_allocations;
            })
            >> pure (some (add32 raw 4)))).1)
  stored raw left (Result.ok tt, m) p q = q
  stored raw left (Result.err e, m) p q = p

  recorded :
      (x : Option ℕ × Heap)
      → Offered size h.heap h.ext_allocations x
      → LiveHost ((record_allocation size h x).1)
  unfolding write32
  recorded _ (refused p) = p
  recorded _ (granted {raw} {left} p q) = stored raw left (bus.write32 h.memory raw size) p q

  -- An allocation of at most 2 ^ 32 - 12 bytes.
  pub alloc_ext-IsLive : LiveHost ((alloc_ext size h).1)
  unfolding alloc_ext
  alloc_ext-IsLive =
      elim (size == 0)
        as (λ t. LiveHost (
          (if t
            then (Result.ok none, h)
            else record_allocation size h (alloc_raw h.heap (saturating_add32 size 4))).1)) [
              | true ↦ l
              | false ↦
                  recorded (alloc_raw h.heap (saturating_add32 size 4))
                    (alloc_raw-Offered h.heap h.ext_allocations l size small)
            ]
