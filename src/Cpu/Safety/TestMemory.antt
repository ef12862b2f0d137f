-- ===== src/Cpu/Safety/TestMemory.antt =====
-- The flat RAM of crates/vmrp-cpu/src/memory.rs answers values that fit their width: its bytes stay
-- below 256.
use vmrp_rust.Prelude.{ℕ, ◌+◌, ◌/◌, ◌%◌, ◌^◌, ◌<◌, ◌≡◌, arith}
use vmrp_rust.Prelude.Result.{Result, ◌>>=◌}
use vmrp_rust.Word.{IsU8, IsU16, IsU32}
use vmrp_rust.Cpu.Memory.{
  TestMemory, MemoryAccessError, offset_for, read8, read16, read32, write8, write16, write32,
  store_at, update, put8, put16, put32, from_le_bytes16, from_le_bytes32, test_memory_bus,
}
use vmrp_rust.Cpu.Safety.{MemoryInvariant, ReadsFit}

abbrev AreBytes : (ℕ → ℕ) → Type 0
AreBytes byte = (i : ℕ) → IsU8 (byte i)

instance abbrev pub test_memory_bytes : MemoryInvariant TestMemory
test_memory_bytes = record { Holds = λ m. AreBytes m.byte }

update-AreBytes : (byte : ℕ → ℕ) (i v : ℕ) → AreBytes byte → IsU8 v → AreBytes (update byte i v)
update-AreBytes byte i v h p j = ground (arith, h j)

store_at-AreBytes :
    (m : TestMemory) (change : (ℕ → ℕ) → ℕ → ℕ → ℕ) (r : Result MemoryAccessError ℕ)
    → AreBytes m.byte
    → ((offset : ℕ) → AreBytes (change m.byte offset))
    → AreBytes (store_at m change r).1.byte
unfolding store_at
store_at-AreBytes m change (Result.ok offset) h k = k offset
store_at-AreBytes m change (Result.err e) h k = h

module _ (byte : ℕ → ℕ) (h : AreBytes byte) (value offset : ℕ) where
  put16-AreBytes : AreBytes (put16 value byte offset)
  put16-AreBytes =
      update-AreBytes _ (offset + 1) (value / 2 ^ 8 % 256)
        (update-AreBytes byte offset (value % 256) h (omega arith)) (omega arith)

  put32-AreBytes : AreBytes (put32 value byte offset)
  put32-AreBytes =
      update-AreBytes _ (offset + 3) (value / 2 ^ 24 % 256)
        (update-AreBytes _ (offset + 2) (value / 2 ^ 16 % 256) put16-AreBytes (omega arith))
        (omega arith)

module _ (m : TestMemory) (o : ℕ) (h : AreBytes m.byte) where
  word8 : IsU8 (m.byte o)
  word8 = h o

  word16 : IsU16 (from_le_bytes16 (m.byte o) (m.byte (o + 1)))
  word16 = omega (arith, h o, h (o + 1))

  word32 : IsU32 (from_le_bytes32 (m.byte o) (m.byte (o + 1)) (m.byte (o + 2)) (m.byte (o + 3)))
  word32 = omega (arith, h o, h (o + 1), h (o + 2), h (o + 3))

-- What a read answers, from what it does with the offset.
answered :
    (bound : ℕ) (r : Result MemoryAccessError ℕ) (f : ℕ → ℕ) (v : ℕ)
    → ((offset : ℕ) → f offset < bound)
    → (r >>= λ offset. Result.ok (f offset)) ≡ Result.ok v
    → v < bound
answered bound (Result.ok offset) f v k p = ground (arith, k offset, p)
answered bound (Result.err e) f v k p = ground (arith, p)

pub test_memory-ReadsFit : ReadsFit test_memory_bus
unfolding read8 read16 read32 write8 write16 write32
test_memory-ReadsFit = record {
  read8_fits = λ m addr v h p. answered (2 ^ 8) (offset_for m addr 1) _ v (λ o. word8 m o h) p;
  read16_fits = λ m addr v h p. answered (2 ^ 16) (offset_for m addr 2) _ v (λ o. word16 m o h) p;
  read32_fits = λ m addr v h p. answered (2 ^ 32) (offset_for m addr 4) _ v (λ o. word32 m o h) p;
  write8_holds = λ m addr v p h.
      store_at-AreBytes m (put8 v) (offset_for m addr 1) h
        λ offset. update-AreBytes m.byte offset v h p;
  write16_holds = λ m addr v p h.
      store_at-AreBytes m (put16 v) (offset_for m addr 2) h (put16-AreBytes m.byte h v);
  write32_holds = λ m addr v p h.
      store_at-AreBytes m (put32 v) (offset_for m addr 4) h (put32-AreBytes m.byte h v);
}
