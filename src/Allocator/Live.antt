-- ===== src/Allocator/Live.antt =====
-- The live allocations of the guest (`ext_allocations` of crates/vmrp-platform/src/lib.rs) beside the
-- free blocks: each has its own range of the pool, which no other allocation and no free block meets.
mod Tests
pub mod Calls
pub mod Sequences
pub mod FreesBack
use vmrp_rust.Prelude.{
  ℕ, suc, ◌+◌, ◌-◌, ◌*◌, ◌^◌, ◌≤◌, ◌<◌, ◌≡◌, ◌⊎◌, inl, inr, max, min, Option, none, some, List, [],
  ◌∷◌, All, Bool, true, false, ◌==◌, if◌then◌else◌, arith, refl,
}
use vmrp_rust.Word.{add32}
use vmrp_rust.Allocator.{FreeBlock, Heap, memory_manager_total_len}
use vmrp_rust.Allocator.Alloc.{taken_bytes}
use vmrp_rust.Allocator.Free.{memory_manager_address, pool_end}
use vmrp_rust.Allocator.Carve.{Apart}
use vmrp_rust.Allocator.Spaced.{IsSpaced}
use vmrp_rust.Allocator.Ext.{HostAllocation, Allocations, get, remove, saturating_add32}

-- The bytes that an allocation holds: four for its length, and the rounding.
abbrev pub held : HostAllocation → ℕ
held a = taken_bytes (saturating_add32 a.requested_len 4)

abbrev pub Clear : HostAllocation → FreeBlock → Type 0
Clear a b = Apart a.raw_addr (held a) b

abbrev pub range : HostAllocation → FreeBlock
range a = record { start = a.raw_addr; len = held a }

-- An allocation lies in the pool, with room for its length and its bytes, and its key is the address
-- after the length.
pub record IsHeld (key : ℕ) (a : HostAllocation) : Type 0 where
  pub keyed : key ≡ a.raw_addr + 4
  pub above : memory_manager_address ≤ a.raw_addr
  pub below : a.raw_addr + held a ≤ pool_end
  pub enough : a.requested_len + 4 ≤ held a

-- Each allocation is held, and clear of the free blocks and of the allocations after it.
abbrev pub AllHeld : List FreeBlock → Allocations → Type 0
AllHeld blocks [] = Unit
AllHeld blocks ((k, a) ∷ rest) =
    IsHeld k a
    × All (Clear a) blocks
    × All (λ other. Clear a (range (other.1))) rest
    × AllHeld blocks rest

pub record IsLive (heap : Heap) (allocations : Allocations) : Type 0 where
  pub spaced : IsSpaced memory_manager_address heap.heap_blocks pool_end
  pub all_held : AllHeld heap.heap_blocks allocations

abbrev Holds : (HostAllocation → Type 0) → Option HostAllocation → Type 0
Holds P none = Unit
Holds P (some a) = P a

module _ (P : HostAllocation → Type 0) where
  pub All-remove :
      (key : ℕ) (m : Allocations) → All (λ e. P (e.1)) m → All (λ e. P (e.1)) (remove key m)
  All-remove key [] h = tt
  All-remove key ((k, a) ∷ rest) h =
      elim (k == key)
        as (λ t. All (λ e. P (e.1)) (if t then remove key rest else (k, a) ∷ remove key rest)) [
          | true ↦ All-remove key rest h.1
          | false ↦ (h.0, All-remove key rest h.1)
        ]

  get-Holds : (key : ℕ) (m : Allocations) → All (λ e. P (e.1)) m → Holds P (get key m)
  get-Holds key [] h = tt
  get-Holds key ((k, a) ∷ rest) h =
      elim (k == key) as (λ t. Holds P (if t then some a else get key rest)) [
        | true ↦ h.0
        | false ↦ get-Holds key rest h.1
      ]

pub AllHeld-remove :
    (blocks : List FreeBlock) (key : ℕ) (m : Allocations)
    → AllHeld blocks m
    → AllHeld blocks (remove key m)
AllHeld-remove blocks key [] h = tt
AllHeld-remove blocks key ((k, a) ∷ rest) h =
    elim (k == key)
      as (λ t. AllHeld blocks (if t then remove key rest else (k, a) ∷ remove key rest)) [
        | true ↦ AllHeld-remove blocks key rest h.3
        | false ↦ (
          h.0,
          h.1,
          All-remove (λ x. Clear a (range x)) key rest h.2,
          AllHeld-remove blocks key rest h.3,
        )
      ]

-- Two ranges are clear of each other.
pub swap-Clear : (a b : HostAllocation) → Clear a (range b) → Clear b (range a)
swap-Clear a b h = ground (arith, h)

pub swap-All :
    (a : HostAllocation) (m : Allocations)
    → All (λ e. Clear a (range (e.1))) m
    → All (λ e. Clear (e.1) (range a)) m
swap-All a [] h = tt
swap-All a ((k, b) ∷ rest) h = (swap-Clear a b h.0, swap-All a rest h.1)

-- What a key leads to: an allocation that is held, clear of the free blocks, and of all the
-- allocations with other keys.
abbrev pub Found : List FreeBlock → ℕ → Allocations → Option HostAllocation → Type 0
Found blocks key m none = Unit
Found blocks key m (some a) =
    IsHeld key a × All (Clear a) blocks × All (λ e. Clear (e.1) (range a)) (remove key m)

module _ (blocks : List FreeBlock) (key : ℕ) where
  get-Found_later :
      (k : ℕ) (b : HostAllocation) (rest : Allocations) (x : Option HostAllocation)
      → Holds (λ a. Clear b (range a)) x
      → Found blocks key rest x
      → (k == key) ≡ false
      → Found blocks key ((k, b) ∷ rest) x
  get-Found_later k b rest none c h p = tt
  get-Found_later k b rest (some a) c h p = (
    h.0,
    h.1,
    elim (k == key)
          as (λ t.
            (k == key) ≡ t
            → All (λ e. Clear (e.1) (range a))
                (if t then remove key rest else (k, b) ∷ remove key rest)) [
                  | true ↦ λ q. h.2
                  | false ↦ λ q. (c, h.2)
                ]
        refl,
  )

  get-Found_first :
      (k : ℕ) (a : HostAllocation) (rest : Allocations)
      → AllHeld blocks ((k, a) ∷ rest)
      → (k == key) ≡ true
      → Found blocks key ((k, a) ∷ rest) (some a)
  get-Found_first k a rest h p = (
    record {
      keyed = ground (arith, h.0.keyed);
      above = h.0.above;
      below = h.0.below;
      enough = h.0.enough;
    },
    h.1,
    elim (k == key)
          as (λ t.
            (k == key) ≡ t
            → All (λ e. Clear (e.1) (range a))
                (if t then remove key rest else (k, a) ∷ remove key rest)) [
                  | true ↦ λ q. All-remove (λ x. Clear x (range a)) key rest (swap-All a rest h.2)
                  | false ↦ λ q. ground (arith, p, q)
                ]
        refl,
  )

  pub get-Found : (m : Allocations) → AllHeld blocks m → Found blocks key m (get key m)
  get-Found [] h = tt
  get-Found ((k, a) ∷ rest) h =
      elim (k == key)
          as (λ t.
            (k == key) ≡ t
            → Found blocks key ((k, a) ∷ rest) (if t then some a else get key rest)) [
              | true ↦ λ p. get-Found_first k a rest h p
              | false ↦ λ p.
                  get-Found_later k a rest (get key rest)
                    (get-Holds (λ b. Clear a (range b)) key rest h.2) (get-Found rest h.3) p
            ]
        refl
