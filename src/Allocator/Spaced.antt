-- ===== src/Allocator/Spaced.antt =====
-- The free blocks of `DsmHost` (crates/vmrp-platform/src/lib.rs) with a gap between neighbours, which
-- `alloc_raw` and `free_raw` keep.
pub mod Insert
pub mod Restore
use vmrp_rust.Prelude.{
  ℕ, suc, ◌+◌, ◌-◌, ◌^◌, ◌≤◌, ◌<◌, ◌≡◌, ◌⊎◌, inl, inr, Option, none, some, List, [], ◌∷◌, All, Bool,
  true, false, leb, ltb, ◌==◌, if◌then◌else◌, arith, refl,
}
use vmrp_rust.Word.{add32, sub32}
use vmrp_rust.Allocator.{FreeBlock, free_bytes, carve, keep}
use vmrp_rust.Allocator.Carve.{IsOrdered, Apart}

-- Blocks that are not empty, in ascending order within `lo` and `hi`, none of which touches the next.
abbrev pub IsSpaced : ℕ → List FreeBlock → ℕ → Type 0
IsSpaced lo [] hi = lo ≤ suc hi
IsSpaced lo (block ∷ blocks) hi =
    lo ≤ block.start × 0 < block.len × IsSpaced (suc (block.start + block.len)) blocks hi

pub spaced_bound : (lo : ℕ) (bs : List FreeBlock) (hi : ℕ) → IsSpaced lo bs hi → lo ≤ suc hi
spaced_bound lo [] hi h = h
spaced_bound lo (b ∷ bs) hi h = ground (arith, spaced_bound (suc (b.start + b.len)) bs hi h.2)

pub weaken-IsSpaced :
    (lo lo' : ℕ) (bs : List FreeBlock) (hi : ℕ) → lo ≤ lo' → IsSpaced lo' bs hi → IsSpaced lo bs hi
weaken-IsSpaced lo lo' [] hi p h = omega (arith, p, h)
weaken-IsSpaced lo lo' (b ∷ bs) hi p h = (omega (arith, p, h.0), h.1, h.2)

-- Spaced blocks are ordered.
pub IsSpaced-IsOrdered :
    (lo : ℕ) (bs : List FreeBlock) (hi : ℕ) → lo ≤ hi → IsSpaced lo bs hi → IsOrdered lo bs hi
IsSpaced-IsOrdered lo [] hi p h = p
IsSpaced-IsOrdered lo (b ∷ bs) hi p h = (
  h.0,
  h.1,
  IsSpaced-IsOrdered (b.start + b.len) bs hi
      (omega (arith, spaced_bound (suc (b.start + b.len)) bs hi h.2))
      (weaken-IsSpaced (b.start + b.len) (suc (b.start + b.len)) bs hi (omega arith) h.2),
)
