-- ===== src/Allocator/Spaced/Insert.antt =====
-- What `insert_free` makes of spaced blocks (`DsmHost::free_raw` in crates/vmrp-platform/src/lib.rs).
use vmrp_rust.Prelude.{
  ℕ, suc, ◌+◌, ◌^◌, ◌≤◌, ◌<◌, ◌≡◌, List, [], ◌∷◌, All, true, false, ltb, ◌==◌, if◌then◌else◌, arith,
  refl,
}
use vmrp_rust.Word.{add32}
use vmrp_rust.Allocator.{FreeBlock, free_bytes}
use vmrp_rust.Allocator.Free.{join_next, join_prev, insert_after, insert_free}
use vmrp_rust.Allocator.Carve.{Apart}
use vmrp_rust.Allocator.Spaced.{IsSpaced, spaced_bound, weaken-IsSpaced}

-- What becomes of a current block and of the blocks after it: they are spaced, hold the bytes of
-- both, and stay clear of every range that was clear of both.
pub record Inserted (lo hi : ℕ) (current : FreeBlock) (before after : List FreeBlock) : Type 0 where
  pub spaced : IsSpaced lo after hi
  pub total : free_bytes after ≡ current.len + free_bytes before
  pub clear : (p n : ℕ) → 0 < n → Apart p n current → All (Apart p n) before → All (Apart p n) after

-- A range clear of two blocks that touch is clear of both together.
joined-Apart :
    (p n start len1 len2 : ℕ)
    → 0 < n
    → Apart p n (record { start = start; len = len1 })
    → Apart p n (record { start = start + len1; len = len2 })
    → Apart p n (record { start = start; len = len1 + len2 })
joined-Apart p n start len1 len2 h x y = ground (arith, x, y)

module _ (hi : ℕ) (fits : hi < 2 ^ 32) (lo : ℕ) (c : FreeBlock) (above : lo ≤ c.start)
    (positive : 0 < c.len) where
  join_next-end : c.start + c.len ≤ hi → Inserted lo hi c [] (join_next c [])
  unfolding join_next free_bytes
  join_next-end h = record {
    spaced = (above, positive, omega arith);
    total = refl;
    clear = λ p n q x y. (x, tt);
  }

  module _ (b : FreeBlock) (rest : List FreeBlock) (before : c.start + c.len ≤ b.start)
      (filled : 0 < b.len) (h : IsSpaced (suc (b.start + b.len)) rest hi) where
    b_bound : b.start + b.len ≤ hi
    b_bound = omega (arith, spaced_bound (suc (b.start + b.len)) rest hi h)

    joined_start : add32 c.start c.len ≡ c.start + c.len
    joined_start = omega (arith, b_bound, filled)

    joined_len : add32 c.len b.len ≡ c.len + b.len
    joined_len = omega (arith, b_bound)

    touching :
        c.start + c.len ≡ b.start
        → Inserted lo hi c (b ∷ rest) (record { start = c.start; len = add32 c.len b.len } ∷ rest)
    unfolding free_bytes
    touching p = record {
      spaced = (
        above,
        omega (arith, joined_len),
        weaken-IsSpaced (suc (c.start + add32 c.len b.len)) (suc (b.start + b.len)) rest hi
            (omega (arith, joined_len)) h,
      );
      total = omega (arith, joined_len);
      clear = λ q n k x y. (ground (arith, joined_len, x, y.0), y.1);
    }

    apart : c.start + c.len < b.start → Inserted lo hi c (b ∷ rest) (c ∷ b ∷ rest)
    unfolding free_bytes
    apart p = record {
      spaced = (above, positive, (omega arith, filled, h));
      total = refl;
      clear = λ q n k x y. (x, y);
    }

    join_next-cons : Inserted lo hi c (b ∷ rest) (join_next c (b ∷ rest))
    unfolding join_next
    join_next-cons =
        elim (add32 c.start c.len == b.start)
            as (λ t.
              (add32 c.start c.len == b.start) ≡ t
              → Inserted lo hi c (b ∷ rest) (
                  if t
                  then record { start = c.start; len = add32 c.len b.len } ∷ rest
                  else c ∷ b ∷ rest)) [
                    | true ↦ λ p. touching (ground (arith, joined_start))
                    | false ↦ λ p. apart (ground (arith, joined_start))
                  ]
          refl

-- The current block ends before the rest.
abbrev Room : ℕ → FreeBlock → List FreeBlock → Type 0
Room hi c [] = c.start + c.len ≤ hi
Room hi c (b ∷ rest) = c.start + c.len ≤ b.start

-- A block in front of both lists.
cons-Inserted :
    (hi lo : ℕ) (c prev : FreeBlock) (before after : List FreeBlock)
    → lo ≤ prev.start
    → 0 < prev.len
    → Inserted (suc (prev.start + prev.len)) hi c before after
    → Inserted lo hi c (prev ∷ before) (prev ∷ after)
unfolding free_bytes
cons-Inserted hi lo c prev before after above filled r = record {
  spaced = (above, filled, r.spaced);
  total = omega (arith, r.total);
  clear = λ p n k x y. (y.0, r.clear p n k x y.1);
}

module _ (hi : ℕ) (fits : hi < 2 ^ 32) where
  join_next-Inserted :
      (lo lower : ℕ) (c : FreeBlock) (rest : List FreeBlock)
      → lo ≤ c.start
      → 0 < c.len
      → Room hi c rest
      → IsSpaced lower rest hi
      → Inserted lo hi c rest (join_next c rest)
  join_next-Inserted lo lower c [] above positive room h =
      join_next-end hi fits lo c above positive room
  join_next-Inserted lo lower c (b ∷ rest) above positive room h =
      join_next-cons hi fits lo c above positive b rest room h.1 h.2

  module _ (lo : ℕ) (prev c : FreeBlock) (rest : List FreeBlock) (positive : 0 < c.len)
      (after : prev.start + prev.len ≤ c.start) (end : c.start + c.len ≤ hi) (room : Room hi c rest)
      (h : IsSpaced lo (prev ∷ rest) hi) where
    prev_end : add32 prev.start prev.len ≡ prev.start + prev.len
    prev_end = omega (arith, after, end, positive)

    prev_len : add32 prev.len c.len ≡ prev.len + c.len
    prev_len = omega (arith, after, end)

    widened-Room :
        (bs : List FreeBlock)
        → prev.start + prev.len ≡ c.start
        → Room hi c bs
        → Room hi (record { start = prev.start; len = add32 prev.len c.len }) bs
    widened-Room [] p r = omega (arith, prev_len)
    widened-Room (b ∷ bs) p r = omega (arith, prev_len)

    merged :
        prev.start + prev.len ≡ c.start
        → Inserted lo hi c
            (prev ∷ rest)
            (join_next (record { start = prev.start; len = add32 prev.len c.len }) rest)
    unfolding free_bytes
    merged p =
        let r =
          join_next-Inserted lo (suc (prev.start + prev.len))
            (record { start = prev.start; len = add32 prev.len c.len }) rest h.0
            (omega (arith, prev_len)) (widened-Room rest p room) h.2 in
        record {
          spaced = r.spaced;
          total = omega (arith, r.total, prev_len);
          clear = λ q n k x y. r.clear q n k (ground (arith, prev_len, p, x, y.0)) y.1;
        }

    join_prev-Inserted : Inserted lo hi c (prev ∷ rest) (join_prev prev c rest)
    unfolding join_prev
    join_prev-Inserted =
        elim (add32 prev.start prev.len == c.start)
            as (λ t.
              (add32 prev.start prev.len == c.start) ≡ t
              → Inserted lo hi c (prev ∷ rest) (
                  if t
                  then join_next (record { start = prev.start; len = add32 prev.len c.len }) rest
                  else prev ∷ join_next c rest)) [
                    | true ↦ λ p. merged (ground (arith, prev_end))
                    | false ↦ λ p. cons-Inserted hi lo c prev rest _ h.0 h.1 (
                        join_next-Inserted (suc (prev.start + prev.len))
                          (suc (prev.start + prev.len)) c rest (ground (arith, prev_end)) positive
                          room h.2)
                  ]
          refl

  module _ (c : FreeBlock) (positive : 0 < c.len) (end : c.start + c.len ≤ hi) where
    insert_after-Inserted :
        (lo : ℕ) (prev : FreeBlock) (bs : List FreeBlock)
        → prev.start + prev.len ≤ c.start
        → IsSpaced lo (prev ∷ bs) hi
        → All (Apart c.start c.len) bs
        → Inserted lo hi c (prev ∷ bs) (insert_after prev c bs)
    unfolding insert_after
    insert_after-Inserted lo prev [] after h free =
        join_prev-Inserted lo prev c [] positive after end end h
    insert_after-Inserted lo prev (b ∷ bs) after h free =
        elim (ltb c.start b.start)
            as (λ t.
              ltb c.start b.start ≡ t
              → Inserted lo hi c (prev ∷ b ∷ bs)
                  (if t then join_prev prev c (b ∷ bs) else prev ∷ insert_after b c bs)) [
                    | true ↦ λ p.
                        join_prev-Inserted lo prev c (b ∷ bs) positive after end
                          (ground (arith, free.0)) h
                    | false ↦ λ p. cons-Inserted hi lo c prev (b ∷ bs) _ h.0 h.1 (
                        insert_after-Inserted (suc (prev.start + prev.len)) b bs
                          (ground (arith, free.0)) h.2 free.1)
                  ]
          refl

    -- A range within the heap that meets no free block is put among spaced blocks: they are spaced
    -- again, with its bytes added, and clear of all that was clear of it and of them.
    pub insert_free-Inserted :
        (lo : ℕ) (bs : List FreeBlock)
        → lo ≤ c.start
        → IsSpaced lo bs hi
        → All (Apart c.start c.len) bs
        → Inserted lo hi c bs (insert_free c bs)
    unfolding insert_free
    insert_free-Inserted lo [] above h free = join_next-Inserted lo lo c [] above positive end h
    insert_free-Inserted lo (b ∷ bs) above h free =
        elim (ltb c.start b.start)
            as (λ t.
              ltb c.start b.start ≡ t
              → Inserted lo hi c (b ∷ bs)
                  (if t then join_next c (b ∷ bs) else insert_after b c bs)) [
                    | true ↦ λ p.
                        join_next-Inserted lo lo c (b ∷ bs) above positive (ground (arith, free.0))
                          h
                    | false ↦ λ p. insert_after-Inserted lo b bs (ground (arith, free.0)) h free.1
                  ]
          refl
