-- ===== src/Cpu/Memory/RoundTrip.antt =====
-- The flat RAM of crates/vmrp-cpu/src/memory.rs: which addresses it serves, and what its reads
-- answer after its writes.
use vmrp_rust.Prelude.{ℕ, ◌+◌, ◌-◌, ◌/◌, ◌%◌, ◌^◌, ◌≤◌, ◌<◌, ◌≡◌, ◌⊎◌, arith}
use vmrp_rust.Prelude.Result.{ok, err, ◌>>=◌}
use vmrp_rust.Word.{IsU16, IsU32}
use vmrp_rust.Cpu.Memory.{
  TestMemory, out_of_range, offset_for, store_at, read8, read16, read32, write8, write16, write32,
  from_le_bytes32,
}

-- The bytes that an access touches lie in the memory. A vector has fewer than 2 ^ 63 bytes.
pub record InRange (m : TestMemory) (addr width : ℕ) : Type 0 where
  pub above : m.base ≤ addr
  pub below : addr + width ≤ m.base + m.len
  pub sized : m.len < 2 ^ 63

-- One of the bytes lies outside.
pub record OutOfRange (m : TestMemory) (addr width : ℕ) : Type 0 where
  pub outside : (addr < m.base) ⊎ (m.base + m.len < addr + width)

module _ (m : TestMemory) (addr width : ℕ) where
  pub offset_for-InRange : InRange m addr width → offset_for m addr width ≡ ok (addr - m.base)
  unfolding offset_for
  offset_for-InRange h = ground (arith, h.above, h.below, h.sized)

  pub offset_for-OutOfRange :
      OutOfRange m addr width → offset_for m addr width ≡ err (out_of_range addr)
  unfolding offset_for
  offset_for-OutOfRange h = ground (arith, h.outside)

-- A value of 32 bits is its four bytes.
bytes32 :
    (v : ℕ)
    → IsU32 v
    → from_le_bytes32 (v % 256) (v / 2 ^ 8 % 256) (v / 2 ^ 16 % 256) (v / 2 ^ 24 % 256) ≡ v
bytes32 v h = omega arith

module _ (m : TestMemory) (addr v : ℕ) where
  -- In range, a word that is written is read back, and neither access fails.
  pub read32-write32 :
      InRange m addr 4
      → IsU32 v
      → ((write32 m addr v).0 ≡ ok tt) × (read32 (write32 m addr v).1 addr ≡ ok v)
  unfolding write32 read32 store_at offset_for
  read32-write32 h p = ground (arith, h.above, h.below, h.sized)

  -- In range, a halfword that is written is read back, and neither access fails.
  pub read16-write16 :
      InRange m addr 2
      → IsU16 v
      → ((write16 m addr v).0 ≡ ok tt) × (read16 (write16 m addr v).1 addr ≡ ok v)
  unfolding write16 read16 store_at offset_for
  read16-write16 h p = ground (arith, h.above, h.below, h.sized)

  -- In range, a byte that is written is read back, and neither access fails.
  pub read8-write8 :
      InRange m addr 1 → ((write8 m addr v).0 ≡ ok tt) × (read8 (write8 m addr v).1 addr ≡ ok v)
  unfolding write8 read8 store_at offset_for
  read8-write8 h = ground (arith, h.above, h.below, h.sized)

  -- Outside the range, every access fails with the address, and no write changes the memory.
  pub access-OutOfRange :
      OutOfRange m addr 1
      → (read8 m addr ≡ err (out_of_range addr))
        × (read16 m addr ≡ err (out_of_range addr))
        × (read32 m addr ≡ err (out_of_range addr))
        × (write8 m addr v ≡ (err (out_of_range addr), m))
        × (write16 m addr v ≡ (err (out_of_range addr), m))
        × (write32 m addr v ≡ (err (out_of_range addr), m))
  unfolding read8 read16 read32 write8 write16 write32 store_at offset_for
  access-OutOfRange h = ground (arith, h.outside)

  -- A byte that is written leaves what is read at every other address, errors included.
  pub read8-write8_elsewhere :
      (at : ℕ) → (at < addr) ⊎ (addr + 1 ≤ at) → read8 (write8 m addr v).1 at ≡ read8 m at
  unfolding read8 write8 store_at offset_for
  read8-write8_elsewhere at h = ground arith

  pub read8-write16_elsewhere :
      (at : ℕ) → (at < addr) ⊎ (addr + 2 ≤ at) → read8 (write16 m addr v).1 at ≡ read8 m at
  unfolding read8 write16 store_at offset_for
  read8-write16_elsewhere at h = ground arith

  -- A word that is written leaves what is read at every address outside of it, errors included, also
  -- when the write fails.
  pub read8-write32_elsewhere :
      (at : ℕ) → (at < addr) ⊎ (addr + 4 ≤ at) → read8 (write32 m addr v).1 at ≡ read8 m at
  unfolding read8 write32 store_at offset_for
  read8-write32_elsewhere at h = ground arith

-- A word is read as four bytes are, the lowest address first.
pub read32-bytes :
    (m : TestMemory) (addr : ℕ)
    → InRange m addr 4
    → read32 m addr ≡ (do
      b0 ← read8 m addr
      b1 ← read8 m (addr + 1)
      b2 ← read8 m (addr + 2)
      b3 ← read8 m (addr + 3)
      ok (from_le_bytes32 b0 b1 b2 b3))
unfolding read32 read8 offset_for
read32-bytes m addr h = ground (arith, h.above, h.below, h.sized)
