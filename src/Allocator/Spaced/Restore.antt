-- ===== src/Allocator/Spaced/Restore.antt =====
-- Spaced free blocks before and after an allocation (`alloc_raw` and `free_raw` of
-- crates/vmrp-platform/src/lib.rs), and the return of what it took.
use vmrp_rust.Prelude.{
  ℕ, suc, ◌+◌, ◌-◌, ◌^◌, ◌≤◌, ◌<◌, ◌≡◌, Option, none, some, List, [], ◌∷◌, All, ap, ◌∙◌, Bool, true,
  false, leb, ◌==◌, if◌then◌else◌, arith, refl, sym,
}
use vmrp_rust.Word.{add32, sub32}
use vmrp_rust.Allocator.{FreeBlock, carve, keep}
use vmrp_rust.Allocator.Free.{join_next, join_prev, insert_after, insert_free}
use vmrp_rust.Allocator.Carve.{Apart}
use vmrp_rust.Allocator.Spaced.{IsSpaced, spaced_bound, weaken-IsSpaced}

-- What an allocation makes of spaced blocks: the blocks left are spaced, the range taken and the
-- blocks left are clear of all that was clear of the blocks before, and freeing the range gives back
-- the very same blocks.
pub data Restorable (lo hi aligned : ℕ) (blocks : List FreeBlock)
    : Option (ℕ × List FreeBlock) → Type 0 where
  exhausted : Restorable lo hi aligned blocks none
  taken :
      {ptr : ℕ} {left : List FreeBlock}
      → lo ≤ ptr
      → ptr + aligned ≤ hi
      → IsSpaced lo left hi
      → ((p n : ℕ)
          → 0 < n
          → All (Apart p n) blocks
          → Apart p n (record { start = ptr; len = aligned }) × All (Apart p n) left)
      → insert_free (record { start = ptr; len = aligned }) left ≡ blocks
      → Restorable lo hi aligned blocks (some (ptr, left))

-- A block that ends before the current one starts, with a gap, is passed over.
insert_after-gap :
    (prev c : FreeBlock) (bs : List FreeBlock)
    → prev.start + prev.len < c.start
    → c.start < 2 ^ 32
    → insert_after prev c bs ≡ prev ∷ insert_free c bs
unfolding insert_after insert_free join_prev
insert_after-gap prev c [] gap fits = ground arith
insert_after-gap prev c (b ∷ bs) gap fits = ground arith

module _ (hi aligned : ℕ) (fits : hi < 2 ^ 32) (positive : 0 < aligned) where
  insert_free-beyond :
      (b : FreeBlock) (left : List FreeBlock) (ptr : ℕ)
      → b.start + b.len < ptr
      → ptr < 2 ^ 32
      → insert_free (record { start = ptr; len = aligned }) (b ∷ left)
        ≡ b ∷ insert_free (record { start = ptr; len = aligned }) left
  unfolding insert_free
  insert_free-beyond b left ptr gap small =
      ground (arith, insert_after-gap b (record { start = ptr; len = aligned }) left gap small)

  kept :
      (lo : ℕ) (b : FreeBlock) (bs : List FreeBlock) (x : Option (ℕ × List FreeBlock))
      → lo ≤ b.start
      → 0 < b.len
      → Restorable (suc (b.start + b.len)) hi aligned bs x
      → Restorable lo hi aligned (b ∷ bs) (keep b x)
  kept lo b bs _ p q exhausted = exhausted
  kept lo b bs _ p q (taken {ptr} {left} above below spaced clear back) =
      taken (omega arith) below (p, q, spaced)
        (λ r n k y. ((clear r n k y.1).0, (y.0, (clear r n k y.1).1)))
        (insert_free-beyond b left ptr (omega arith) (omega arith) ∙ ap (λ cs. b ∷ cs) back)

  module _ (lo : ℕ) (b : FreeBlock) (bs : List FreeBlock) (enough : aligned ≤ b.len)
      (h : IsSpaced lo (b ∷ bs) hi) where
    end_bound : b.start + b.len ≤ hi
    end_bound = omega (arith, spaced_bound (suc (b.start + b.len)) bs hi h.2)

    shortened_start : add32 b.start aligned ≡ b.start + aligned
    shortened_start = omega (arith, end_bound)

    shortened_len : sub32 b.len aligned ≡ b.len - aligned
    shortened_len = omega (arith, end_bound)

    insert_free-exact :
        (bs : List FreeBlock) → IsSpaced (suc (b.start + b.len)) bs hi → insert_free b bs ≡ b ∷ bs
    unfolding insert_free join_next
    insert_free-exact [] p = refl
    insert_free-exact (c ∷ cs) p = ground (arith, end_bound, p.0)

    exact-Restorable : b.len ≡ aligned → Restorable lo hi aligned (b ∷ bs) (some (b.start, bs))
    exact-Restorable p =
        taken h.0 (omega (arith, end_bound))
          (weaken-IsSpaced lo (suc (b.start + b.len)) bs hi (omega (arith, h.0)) h.2)
          (λ r n k y. (ground (arith, p, y.0), y.1))
          (ap (λ len. insert_free (record { start = b.start; len = len }) bs) (sym p)
            ∙ insert_free-exact bs h.2)

    insert_free-shortened :
        aligned < b.len
        → insert_free
            (record { start = b.start; len = aligned })
            (record { start = add32 b.start aligned; len = sub32 b.len aligned } ∷ bs)
          ≡ b ∷ bs
    unfolding insert_free join_next
    insert_free-shortened p = ground (arith, end_bound, shortened_start, shortened_len)

    shortened-Restorable :
        aligned < b.len
        → Restorable lo hi aligned (b ∷ bs) (
            some
              (b.start, record { start = add32 b.start aligned; len = sub32 b.len aligned } ∷ bs))
    shortened-Restorable p =
        taken h.0 (omega (arith, end_bound))
          (
            omega (arith, shortened_start, h.0),
            omega (arith, shortened_len),
            weaken-IsSpaced (suc (add32 b.start aligned + sub32 b.len aligned))
                (suc (b.start + b.len)) bs hi (omega (arith, shortened_start, shortened_len)) h.2,
          )
          (λ r n k y.
            (ground (arith, y.0), (ground (arith, shortened_start, shortened_len, y.0), y.1)))
          (insert_free-shortened p)

    fitting :
        (exact : Bool)
        → (b.len == aligned) ≡ exact
        → Restorable lo hi aligned (b ∷ bs) (
            some (
              b.start,
              if exact
                  then bs
                  else record { start = add32 b.start aligned; len = sub32 b.len aligned } ∷ bs,
            ))
    fitting true p = exact-Restorable (ground arith)
    fitting false p = shortened-Restorable (ground arith)

  -- From spaced blocks in a heap below 2 ^ 32, an allocation of a positive number of bytes finds no
  -- block, or takes a range of the heap and leaves spaced blocks, into which freeing the range puts
  -- back exactly the blocks before.
  pub carve-Restorable :
      (lo : ℕ) (blocks : List FreeBlock)
      → IsSpaced lo blocks hi
      → Restorable lo hi aligned blocks (carve aligned blocks)
  unfolding carve
  carve-Restorable lo [] h = exhausted
  carve-Restorable lo (b ∷ bs) h =
      elim (leb aligned b.len)
          as (λ t.
            leb aligned b.len ≡ t
            → Restorable lo hi aligned (b ∷ bs) (
                if t
                then some (
                  b.start,
                  if b.len == aligned
                      then bs
                      else record { start = add32 b.start aligned; len = sub32 b.len aligned } ∷ bs,
                )
                else keep b (carve aligned bs))) [
                  | true ↦ λ p. fitting lo b bs (ground arith) h (b.len == aligned) refl
                  | false ↦
                      λ p. kept lo b bs _ h.0 h.1 (carve-Restorable (suc (b.start + b.len)) bs h.2)
                ]
        refl
