-- ===== src/Abi/Image/Contents.antt =====
-- What `load` (crates/vmrp-abi/src/blob.rs) leaves in the memory.
use vmrp_rust.Prelude.{
  ℕ, zero, Bool, true, false, ltb, leb, ◌||◌, suc, ◌+◌, ◌%◌, ◌^◌, ◌≤◌, ◌<◌, ◌≡◌, ◌∙◌, ◌⊎◌, inl, [],
  ◌∷◌, length, arith, refl, ap,
}
use vmrp_rust.Prelude.Result.{Result}
use vmrp_rust.Prelude.State.{and_then}
use vmrp_rust.Word.{add32}
use vmrp_rust.Cpu.Memory.{
  TestMemory, MemoryAccessError, out_of_range, with_ram, read8, write8, store_at, offset_for,
}
use vmrp_rust.Cpu.Memory.RoundTrip.{
  InRange, read8-write8, read8-write8_elsewhere, access-OutOfRange,
}
use vmrp_rust.Abi.{Bytes, nth}
use vmrp_rust.Abi.Layout.{code_address, code_size}
use vmrp_rust.Abi.Image.{
  write_from, write_blob, for_layout, AbiLoadError, CodeBlob, LoadedImage, loaded, load, image_of,
}

-- What a write of bytes from an address does: all are read back, and all else is as before; or the
-- first address outside the memory is the error.
pub data Written (m : TestMemory) (addr : ℕ) (bytes : Bytes)
    : Result MemoryAccessError (Unit {0}) × TestMemory → Type 0 where
  written :
      {m' : TestMemory}
      → m'.base ≡ m.base
      → m'.len ≡ m.len
      → ((i : ℕ) → i < length bytes → read8 m' (addr + i) ≡ Result.ok (nth bytes i))
      → ((at : ℕ) → (at < addr) ⊎ (addr + length bytes ≤ at) → read8 m' at ≡ read8 m at)
      → Written m addr bytes (Result.ok tt, m')
  stopped :
      {m' : TestMemory} {e : ℕ}
      → addr ≤ e
      → e < addr + length bytes
      → (e < m.base) ⊎ (m.base + m.len ≤ e)
      → ((at : ℕ) → addr ≤ at → at < e → (m.base ≤ at) × (at < m.base + m.len))
      → Written m addr bytes (Result.err (out_of_range e), m')

shift_zero : (a : ℕ) → a + 0 ≡ a
shift_zero a = omega arith

module _ (m : TestMemory) (addr b : ℕ) (bytes : Bytes) (inside : InRange m addr 1) where
  stored : TestMemory
  stored = (write8 m addr b).1

  same_base : stored.base ≡ m.base
  unfolding stored write8 store_at offset_for
  same_base = ground (arith, inside.above, inside.below, inside.sized)

  same_len : stored.len ≡ m.len
  unfolding stored write8 store_at offset_for
  same_len = ground (arith, inside.above, inside.below, inside.sized)

  shift : (i : ℕ) → addr + suc i ≡ suc addr + i
  shift i = omega arith

  here_suc :
      (m' : TestMemory)
      → ((i : ℕ) → i < length bytes → read8 m' (suc addr + i) ≡ Result.ok (nth bytes i))
      → ((at : ℕ)
          → (at < suc addr) ⊎ (suc addr + length bytes ≤ at)
          → read8 m' at ≡ read8 stored at)
      → (i : ℕ) → i < suc (length bytes)
      → read8 m' (addr + i) ≡ Result.ok (nth (b ∷ bytes) i)
  unfolding stored
  here_suc m' here there zero h =
      ap (λ a. read8 m' a) (shift_zero addr)
      ∙ there addr (inl (omega arith))
      ∙ (read8-write8 m addr b inside).1
  here_suc m' here there (suc i) h = ap (λ a. read8 m' a) (shift i) ∙ here i (omega (arith, h))

  earlier :
      (e : ℕ)
      → ((at : ℕ) → suc addr ≤ at → at < e → (stored.base ≤ at) × (at < stored.base + stored.len))
      → (at : ℕ) → addr ≤ at
      → at < e
      → (m.base ≤ at) × (at < m.base + m.len)
  earlier e h at above below =
      elim (ltb addr at) as (λ t. ltb addr at ≡ t → (m.base ≤ at) × (at < m.base + m.len)) [
        | true ↦ λ p.
            let q = h at (ground arith) below in
            (omega (arith, q.0, same_base), omega (arith, q.1, same_base, same_len))
        | false ↦ λ p. (ground (arith, inside.above), ground (arith, inside.below))
      ]
        refl

  later :
      (x : Result MemoryAccessError (Unit {0}) × TestMemory)
      → Written stored (suc addr) bytes x
      → Written m addr (b ∷ bytes) x
  unfolding stored
  later _ (written base len here there) =
      written (base ∙ same_base) (len ∙ same_len) (here_suc _ here there) (λ at h.
        there at (ground (arith, h)) ∙ read8-write8_elsewhere m addr b at (ground (arith, h)))
  later _ (stopped above below out h) =
      stopped (omega arith) (omega arith) (ground (arith, out, same_base, same_len)) (earlier _ h)

exact :
    (start offset addr : ℕ)
    → addr ≡ start + offset
    → addr < 2 ^ 32
    → add32 start (offset % 2 ^ 32) ≡ addr
exact start offset addr p q = omega (arith, p, q)

-- The write of one byte, and of the bytes after it.
write_from-first :
    (start offset addr b : ℕ) (bytes : Bytes) (m : TestMemory)
    → addr ≡ start + offset
    → addr < 2 ^ 32
    → write_from start offset (b ∷ bytes) m
      ≡ and_then (write8 m addr b) (λ _. write_from start (suc offset) bytes)
unfolding write_from
write_from-first start offset addr b bytes m p q =
    ap (λ a. and_then (write8 m a b) (λ _. write_from start (suc offset) bytes))
      (exact start offset addr p q)

module _ (start offset addr b : ℕ) (bytes : Bytes) (m : TestMemory) (sized : m.len < 2 ^ 63) where
  -- By whether the first byte lies in the memory.
  first_cases :
      ((inside : InRange m addr 1)
        → Written
            (stored m addr b bytes inside)
            (suc addr)
            bytes
            (write_from start (suc offset) bytes (stored m addr b bytes inside)))
      → (t : Bool) → (ltb addr m.base || leb (m.base + m.len) addr) ≡ t
      → Written m addr
          (b ∷ bytes)
          (and_then (write8 m addr b) (λ _. write_from start (suc offset) bytes))
  unfolding stored
  first_cases f true h =
      coe 1 0
        (k. Written m addr (b ∷ bytes) (
          and_then ((access-OutOfRange m addr b (record { outside = ground (arith, h) })).3 k)
            (λ _. write_from start (suc offset) bytes)))
        (stopped (omega arith) (omega arith) (ground (arith, h))
          (λ at above below. absurd (omega (arith, above, below))))
  first_cases f false h =
      let inside : InRange m addr 1 = record {
        above = ground (arith, h);
        below = ground (arith, h);
        sized = sized;
      } in
      coe 1 0
        (k. Written m addr (b ∷ bytes) (
          and_then ((read8-write8 m addr b inside).0 k, (write8 m addr b).1)
            (λ _. write_from start (suc offset) bytes)))
        (later m addr b bytes inside _ (f inside))

pub write_from-Written :
    (bytes : Bytes) (start offset addr : ℕ) (m : TestMemory)
    → addr ≡ start + offset
    → addr + length bytes ≤ 2 ^ 32
    → m.len < 2 ^ 63
    → Written m addr bytes (write_from start offset bytes m)
unfolding write_from stored
write_from-Written [] start offset addr m p q sized =
    written refl refl (λ i h. absurd (omega (arith, h))) (λ at h. refl)
write_from-Written (b ∷ bytes) start offset addr m p q sized =
    coe 1 0
      (k.
        Written m addr (b ∷ bytes)
          (write_from-first start offset addr b bytes m p (omega (arith, q)) k))
      (first_cases start offset addr b bytes m sized
        (λ inside.
          write_from-Written bytes start (suc offset) (suc addr) (stored m addr b bytes inside)
            (omega (arith, p)) (omega (arith, q))
            (omega (arith, sized, same_len m addr b bytes inside)))
        (ltb addr m.base || leb (m.base + m.len) addr) refl)

-- What a load answers: an image in which every byte of the blob is read back and every other byte is
-- as in empty RAM, or the first address of the blob that lies outside the code region.
abbrev pub Loaded : CodeBlob → Result AbiLoadError LoadedImage → Type 0
Loaded blob (Result.ok image) =
    (image.load_address ≡ blob.load_address)
    × (image.entry ≡ blob.entry)
    × (image.mode ≡ blob.mode)
    × ((i : ℕ)
        → i < length blob.bytes
        → read8 image.memory (blob.load_address + i) ≡ Result.ok (nth blob.bytes i))
    × ((at : ℕ)
        → (at < blob.load_address) ⊎ (blob.load_address + length blob.bytes ≤ at)
        → read8 image.memory at ≡ read8 (with_ram code_address code_size) at)
Loaded blob (Result.err (AbiLoadError.memory (out_of_range e))) =
    (blob.load_address ≤ e)
    × (e < blob.load_address + length blob.bytes)
    × ((e < code_address) ⊎ (code_address + code_size ≤ e))
    × ((at : ℕ)
        → blob.load_address ≤ at
        → at < e
        → (code_address ≤ at) × (at < code_address + code_size))

image_of-Loaded :
    (blob : CodeBlob) (x : Result MemoryAccessError (Unit {0}) × TestMemory)
    → Written (with_ram code_address code_size) blob.load_address blob.bytes x
    → Loaded blob (loaded blob (image_of x))
unfolding with_ram
image_of-Loaded blob _ (written base len here there) = (refl, refl, refl, here, there)
image_of-Loaded blob _ (stopped above below out h) = (above, below, out, h)

-- A blob that ends below 2 ^ 32 is loaded into the code region with its addresses and its mode, every
-- byte read back at its address and all else as in empty RAM; or the load fails with the first
-- address of the blob that lies outside that region.
pub load-Loaded :
    (blob : CodeBlob) → blob.load_address + length blob.bytes ≤ 2 ^ 32 → Loaded blob (load blob)
unfolding load write_blob for_layout with_ram
load-Loaded blob h =
    image_of-Loaded blob
      (write_from blob.load_address 0 blob.bytes (with_ram code_address code_size))
      (write_from-Written blob.bytes blob.load_address 0 blob.load_address
        (with_ram code_address code_size) (omega arith) h (omega arith))
