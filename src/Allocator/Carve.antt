-- ===== src/Allocator/Carve.antt =====
-- What `DsmHost::alloc_raw` (crates/vmrp-platform/src/lib.rs) takes from the free blocks, and what it
-- leaves.
use vmrp_rust.Prelude.{
  ℕ, ◌+◌, ◌-◌, ◌^◌, ◌≤◌, ◌<◌, ◌≡◌, ◌⊎◌, inl, inr, Option, none, some, List, [], ◌∷◌, All, Bool,
  true, false, leb, ◌==◌, if◌then◌else◌, arith, refl,
}
use vmrp_rust.Word.{add32, sub32}
use vmrp_rust.Allocator.{FreeBlock, free_bytes, carve, keep}

-- Blocks that are not empty, in ascending order, apart from each other, within `lo` and `hi`.
abbrev pub IsOrdered : ℕ → List FreeBlock → ℕ → Type 0
IsOrdered lo [] hi = lo ≤ hi
IsOrdered lo (block ∷ blocks) hi =
    lo ≤ block.start × 0 < block.len × IsOrdered (block.start + block.len) blocks hi

abbrev pub Apart : ℕ → ℕ → FreeBlock → Type 0
Apart ptr aligned block = (ptr + aligned ≤ block.start) ⊎ (block.start + block.len ≤ ptr)

-- An allocation: it fails when every block is too short, and else it answers a range of the heap
-- which no remaining block meets, the bytes of which have left the free bytes.
pub data Carved (lo hi aligned : ℕ) (blocks : List FreeBlock)
    : Option (ℕ × List FreeBlock) → Type 0 where
  exhausted : All (λ b. b.len < aligned) blocks → Carved lo hi aligned blocks none
  taken :
      {ptr : ℕ} {left : List FreeBlock}
      → lo ≤ ptr
      → ptr + aligned ≤ hi
      → IsOrdered lo left hi
      → All (Apart ptr aligned) left
      → free_bytes blocks ≡ aligned + free_bytes left
      → Carved lo hi aligned blocks (some (ptr, left))

-- Blocks that start above an address lie above it.
ordered_bound : (lo : ℕ) (blocks : List FreeBlock) (hi : ℕ) → IsOrdered lo blocks hi → lo ≤ hi
ordered_bound lo [] hi h = h
ordered_bound lo (b ∷ bs) hi h = ground (arith, ordered_bound (b.start + b.len) bs hi h.2)

beyond :
    (ptr aligned lo : ℕ) (blocks : List FreeBlock) (hi : ℕ)
    → ptr + aligned ≤ lo
    → IsOrdered lo blocks hi
    → All (Apart ptr aligned) blocks
beyond ptr aligned lo [] hi p h = tt
beyond ptr aligned lo (b ∷ bs) hi p h =
    (inl (omega (arith, h.0)), beyond ptr aligned (b.start + b.len) bs hi (omega (arith, h.0)) h.2)

weaken_bound :
    (lo lo' : ℕ) (blocks : List FreeBlock) (hi : ℕ)
    → lo ≤ lo'
    → IsOrdered lo' blocks hi
    → IsOrdered lo blocks hi
weaken_bound lo lo' [] hi p h = omega (arith, p, h)
weaken_bound lo lo' (b ∷ bs) hi p h = (omega (arith, p, h.0), h.1, h.2)

module _ (hi aligned : ℕ) (fits : hi < 2 ^ 32) (positive : 0 < aligned) where
  kept :
      (lo : ℕ) (b : FreeBlock) (bs : List FreeBlock) (x : Option (ℕ × List FreeBlock))
      → lo ≤ b.start
      → 0 < b.len
      → b.len < aligned
      → Carved (b.start + b.len) hi aligned bs x
      → Carved lo hi aligned (b ∷ bs) (keep b x)
  unfolding free_bytes
  kept lo b bs _ p q short (exhausted all) = exhausted (short, all)
  kept lo b bs _ p q short (taken above below ordered apart total) =
      taken (omega arith) below (p, q, ordered) (inr above, apart) (omega arith)

  -- The first block that is large enough, by whether its length is exact.
  module _ (lo : ℕ) (b : FreeBlock) (bs : List FreeBlock) (enough : aligned ≤ b.len)
      (h : IsOrdered lo (b ∷ bs) hi) where
    end_bound : b.start + b.len ≤ hi
    end_bound = ordered_bound (b.start + b.len) bs hi h.2

    shortened_start : add32 b.start aligned ≡ b.start + aligned
    shortened_start = omega (arith, end_bound)

    shortened_len : sub32 b.len aligned ≡ b.len - aligned
    shortened_len = omega (arith, end_bound)

    bs-Apart : All (Apart b.start aligned) bs
    bs-Apart = beyond b.start aligned (b.start + b.len) bs hi (omega arith) h.2

    split-Carved :
        (exact : Bool)
        → (b.len == aligned) ≡ exact
        → Carved lo hi aligned (b ∷ bs) (
            some (
              b.start,
              if exact
                  then bs
                  else record { start = add32 b.start aligned; len = sub32 b.len aligned } ∷ bs,
            ))
    unfolding free_bytes
    split-Carved true p =
        taken h.0 (omega (arith, end_bound))
          (weaken_bound lo (b.start + b.len) bs hi (omega (arith, h.0)) h.2) bs-Apart (ground arith)
    split-Carved false p =
        taken h.0 (omega (arith, end_bound))
          (
            omega (arith, shortened_start, h.0),
            ground (arith, shortened_len, p),
            weaken_bound _ (b.start + b.len) bs hi (omega (arith, shortened_start, shortened_len))
                h.2,
          )
          (inl (omega (arith, shortened_start)), bs-Apart) (omega (arith, shortened_len))

  -- From ordered blocks within a heap below 2 ^ 32, an allocation of a positive number of bytes
  -- either finds every block too short, or takes a range within the heap that no block left free
  -- meets; the blocks left are ordered, and the free bytes are fewer by exactly that number.
  pub carve-Carved :
      (lo : ℕ) (blocks : List FreeBlock)
      → IsOrdered lo blocks hi
      → Carved lo hi aligned blocks (carve aligned blocks)
  unfolding carve
  carve-Carved lo [] h = exhausted tt
  carve-Carved lo (b ∷ bs) h =
      elim (leb aligned b.len)
          as (λ t.
            leb aligned b.len ≡ t
            → Carved lo hi aligned (b ∷ bs) (
                if t
                then some (
                  b.start,
                  if b.len == aligned
                      then bs
                      else record { start = add32 b.start aligned; len = sub32 b.len aligned } ∷ bs,
                )
                else keep b (carve aligned bs))) [
                  | true ↦ λ p. split-Carved lo b bs (ground arith) h (b.len == aligned) refl
                  | false ↦ λ p.
                      kept lo b bs _ h.0 h.1 (ground arith) (carve-Carved (b.start + b.len) bs h.2)
                ]
        refl
