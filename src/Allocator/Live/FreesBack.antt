-- ===== src/Allocator/Live/FreesBack.antt =====
-- `alloc_ext` followed by `free_ext` (crates/vmrp-platform/src/lib.rs).
use vmrp_rust.Prelude.{
  ℕ, ◌+◌, ◌-◌, ◌^◌, ◌≤◌, ◌<◌, ◌≡◌, ◌∙◌, Option, none, some, List, [], ◌∷◌, All, true, false, ◌==◌,
  if◌then◌else◌, arith, refl, ap,
}
use vmrp_rust.Prelude.Result.{Result}
use vmrp_rust.Prelude.State.{and_then, pure, modify, ◌>>◌}
use vmrp_rust.Word.{add32}
use vmrp_rust.Cpu.Memory.{MemoryAccessError, MemoryBus}
use vmrp_rust.Allocator.{FreeBlock, Heap, finish_alloc, alloc_raw}
use vmrp_rust.Allocator.Alloc.{taken_bytes}
use vmrp_rust.Allocator.Free.{memory_manager_address, pool_end, free_raw, insert_free}
use vmrp_rust.Allocator.Carve.{Apart}
use vmrp_rust.Allocator.Spaced.Restore.{Restorable, carve-Restorable}
use vmrp_rust.Allocator.Ext.{
  HostAllocation, Allocations, Host, remove, insert, saturating_add32, free_ext, alloc_ext,
  record_allocation, write32, of_write,
}
use vmrp_rust.Allocator.Live.{held, range, IsHeld, AllHeld}
use vmrp_rust.Allocator.Live.Calls.{LiveHost, free_raw-IsHeld, rounded}

-- A refusal changes nothing of the host. Freeing the answer of an allocation leaves the free blocks and
-- the live allocations of the host before.
abbrev pub FreesBack : {M : Type 0} → Host M → Result MemoryAccessError (Option ℕ) × Host M → Type 0
FreesBack h (Result.ok none, h') = h' ≡ h
FreesBack h (Result.ok (some ptr), h') =
    ((free_ext ptr h').heap.heap_blocks ≡ h.heap.heap_blocks)
    × ((free_ext ptr h').ext_allocations ≡ h.ext_allocations)
FreesBack h (Result.err e, h') = h'.ext_allocations ≡ h.ext_allocations

-- Keys that are not there.
remove-absent : (key : ℕ) (m : Allocations) → All (λ e. (e.0 == key) ≡ false) m → remove key m ≡ m
remove-absent key [] h = refl
remove-absent key ((k, a) ∷ rest) h = rw (h.0, remove-absent key rest h.1)

absent :
    (blocks : List FreeBlock) (new : HostAllocation)
    → 0 < held new
    → new.raw_addr + 4 < 2 ^ 32
    → ((p n : ℕ) → 0 < n → All (Apart p n) blocks → Apart p n (range new))
    → (m : Allocations) → AllHeld blocks m
    → All (λ e. (e.0 == add32 new.raw_addr 4) ≡ false) m
absent blocks new q small clear [] h = tt
absent blocks new q small clear ((k, a) ∷ rest) h = (
  ground (arith, clear a.raw_addr (held a) (omega (arith, h.0.enough)) h.1, h.0.keyed, h.0.enough),
  absent blocks new q small clear rest h.3,
)

module _ {M : Type 0} (h : Host M) (size raw : ℕ) (left : Heap) (memory : M) where
  -- The host when the allocation has been recorded.
  abbrev recorded : Host M
  recorded = record h {
    heap = left;
    memory = memory;
    ext_allocations =
        insert (add32 raw 4) (record { raw_addr = raw; requested_len = size }) h.ext_allocations;
  }

  nonzero : raw + 4 < 2 ^ 32 → (add32 raw 4 == 0) ≡ false
  nonzero p = ground arith

  same : (add32 raw 4 == add32 raw 4) ≡ true
  same = ground arith

  free_ext-recorded :
      raw + 4 < 2 ^ 32
      → free_ext (add32 raw 4) recorded ≡ record recorded {
        heap = free_raw left raw (saturating_add32 size 4);
        ext_allocations = remove (add32 raw 4) (remove (add32 raw 4) h.ext_allocations);
      }
  unfolding free_ext
  free_ext-recorded p = rw (nonzero p, same, same)

module _ {M : Type 0} ⦃bus : MemoryBus M⦄ (h : Host M) (l : LiveHost h) (size : ℕ)
    (small : size ≤ 2 ^ 32 - 12) where
  -- From spaced blocks, with the range given back among them.
  recorded-FreesBack :
      (raw : ℕ) (left : Heap) (x : Result MemoryAccessError (Unit {0}) × M)
      → IsHeld (add32 raw 4) (record { raw_addr = raw; requested_len = size })
      → raw + 4 < 2 ^ 32
      → insert_free (range (record { raw_addr = raw; requested_len = size })) left.heap_blocks
        ≡ h.heap.heap_blocks
      → remove (add32 raw 4) h.ext_allocations ≡ h.ext_allocations
      → FreesBack h (
          and_then (of_write (record h { heap = left }) x) (λ _.
            modify (λ h'. record h' {
              ext_allocations =
                  insert
                    (add32 raw 4)
                    (record { raw_addr = raw; requested_len = size })
                    h'.ext_allocations;
            })
            >> pure (some (add32 raw 4))))
  recorded-FreesBack raw left (Result.err e, m) held small back fresh = refl
  recorded-FreesBack raw left (Result.ok tt, m) held small back fresh =
      let f = free_ext-recorded h size raw left m small in
      (
        ap (λ z. z.heap.heap_blocks) f
            ∙ ap (λ z. z.heap_blocks)
                (free_raw-IsHeld left (add32 raw 4)
                  (record { raw_addr = raw; requested_len = size }) held)
            ∙ back,
        ap (λ z. z.ext_allocations) f ∙ ap (λ z. remove (add32 raw 4) z) fresh ∙ fresh,
      )

  finished-FreesBack :
      (x : Option (ℕ × List FreeBlock))
      → Restorable memory_manager_address pool_end
          (taken_bytes (saturating_add32 size 4))
          h.heap.heap_blocks
          x
      → FreesBack h (record_allocation size h (finish_alloc h.heap x))
  unfolding write32
  finished-FreesBack _ Restorable.exhausted = refl
  finished-FreesBack _ (Restorable.taken {ptr} {left} above below spaced clear back) =
      recorded-FreesBack ptr _ (bus.write32 h.memory ptr size)
        (record {
          keyed = omega (arith, below);
          above = above;
          below = below;
          enough = rounded h.heap h.ext_allocations l size small;
        })
        (omega (arith, below)) back
        (remove-absent (add32 ptr 4) h.ext_allocations (
          absent h.heap.heap_blocks (record { raw_addr = ptr; requested_len = size })
            (omega (arith, rounded h.heap h.ext_allocations l size small)) (omega (arith, below))
            (λ p n k y. (clear p n k y).0) h.ext_allocations l.all_held))

  -- From a live host, a request of at most 2 ^ 32 - 12 bytes: when it is refused the host, its
  -- memory and registers included, is the one before; when its answer is freed the free blocks and the live allocations are again exactly those before,
  -- and when the write of its length fails no allocation is recorded.
  pub alloc_ext-FreesBack : FreesBack h (alloc_ext size h)
  unfolding alloc_ext alloc_raw
  alloc_ext-FreesBack =
      elim (size == 0)
        as (λ t. FreesBack h (
          if t
          then (Result.ok none, h)
          else record_allocation size h (alloc_raw h.heap (saturating_add32 size 4)))) [
            | true ↦ refl
            | false ↦ finished-FreesBack _ (
                carve-Restorable pool_end (taken_bytes (saturating_add32 size 4)) (omega arith)
                  (omega (arith, rounded h.heap h.ext_allocations l size small))
                  memory_manager_address h.heap.heap_blocks l.spaced)
          ]
