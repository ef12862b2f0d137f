-- ===== src/Cpu/Memory.antt =====
-- crates/vmrp-cpu/src/memory.rs: the memory bus that the interpreter uses, and the flat RAM that
-- implements it. A `GuestAddr` (crates/vmrp-core/src/guest.rs) is its u32. A `usize` has 64 bits.
pub mod RoundTrip
use vmrp_rust.Prelude.{ℕ, ◌+◌, ◌-◌, ◌*◌, ◌/◌, ◌%◌, ◌^◌, ltb, leb, ◌==◌, if◌then◌else◌}
use vmrp_rust.Prelude.Result.{Result, ok, err, ◌>>=◌}

pub data MemoryAccessError : Type 0 where
  out_of_range : ℕ → MemoryAccessError

-- A write returns the memory with its result, since it may fail halfway.
pub record MemoryBus (M : Type 0) : Type 0 where
  pub read8 : M → ℕ → Result MemoryAccessError ℕ
  pub read16 : M → ℕ → Result MemoryAccessError ℕ
  pub read32 : M → ℕ → Result MemoryAccessError ℕ
  pub write8 : M → ℕ → ℕ → Result MemoryAccessError (Unit {0}) × M
  pub write16 : M → ℕ → ℕ → Result MemoryAccessError (Unit {0}) × M
  pub write32 : M → ℕ → ℕ → Result MemoryAccessError (Unit {0}) × M

-- The bytes are a vector of fixed length: `byte i` counts for `i < len` only.
pub record TestMemory : Type 0 where
  pub base : ℕ
  pub len : ℕ
  pub byte : ℕ → ℕ

unfoldable pub with_ram : ℕ → ℕ → TestMemory
with_ram base size = record { base = base; len = size; byte = λ _. 0 }

unfoldable pub offset_for : TestMemory → ℕ → ℕ → Result MemoryAccessError ℕ
offset_for m addr width =
    if ltb addr m.base
    then err (out_of_range addr)
    else let offset = addr - m.base in
      if leb (2 ^ 64) (offset + width)
      then err (out_of_range addr)
      else if ltb m.len (offset + width)
      then err (out_of_range addr)
      else ok offset

-- `bytes[i] = v`.
abbrev pub update : (ℕ → ℕ) → ℕ → ℕ → ℕ → ℕ
update f i v j = if j == i then v else f j

-- `u16::from_le_bytes` and `u32::from_le_bytes`.
abbrev pub from_le_bytes16 : ℕ → ℕ → ℕ
from_le_bytes16 b0 b1 = b0 + b1 * 2 ^ 8

abbrev pub from_le_bytes32 : ℕ → ℕ → ℕ → ℕ → ℕ
from_le_bytes32 b0 b1 b2 b3 = b0 + b1 * 2 ^ 8 + b2 * 2 ^ 16 + b3 * 2 ^ 24

unfoldable pub read8 : TestMemory → ℕ → Result MemoryAccessError ℕ
read8 m addr = do offset ← offset_for m addr 1; ok (m.byte offset)

unfoldable pub read16 : TestMemory → ℕ → Result MemoryAccessError ℕ
read16 m addr = do
  offset ← offset_for m addr 2
  ok (from_le_bytes16 (m.byte offset) (m.byte (offset + 1)))

unfoldable pub read32 : TestMemory → ℕ → Result MemoryAccessError ℕ
read32 m addr = do
  offset ← offset_for m addr 4
  ok (
      from_le_bytes32 (m.byte offset) (m.byte (offset + 1)) (m.byte (offset + 2))
        (m.byte (offset + 3)))

-- The rest of a write, once `offset_for` has answered.
unfoldable pub store_at :
    TestMemory
    → ((ℕ → ℕ) → ℕ → ℕ → ℕ)
    → Result MemoryAccessError ℕ
    → Result MemoryAccessError (Unit {0}) × TestMemory
store_at m change (ok offset) = (ok tt, record m { byte = change m.byte offset })
store_at m change (err e) = (err e, m)

-- The bytes with a `u8` at an offset, and with `value.to_le_bytes()` copied to it.
abbrev pub put8 : ℕ → (ℕ → ℕ) → ℕ → ℕ → ℕ
put8 value bytes offset = update bytes offset value

abbrev pub put16 : ℕ → (ℕ → ℕ) → ℕ → ℕ → ℕ
put16 value bytes offset =
    update (update bytes offset (value % 256)) (offset + 1) (value / 2 ^ 8 % 256)

abbrev pub put32 : ℕ → (ℕ → ℕ) → ℕ → ℕ → ℕ
put32 value bytes offset =
    update
      (update (update (update bytes offset (value % 256)) (offset + 1) (value / 2 ^ 8 % 256))
        (offset + 2) (value / 2 ^ 16 % 256))
      (offset + 3) (value / 2 ^ 24 % 256)

unfoldable pub write8 : TestMemory → ℕ → ℕ → Result MemoryAccessError (Unit {0}) × TestMemory
unfolding store_at
write8 m addr value = store_at m (put8 value) (offset_for m addr 1)

unfoldable pub write16 : TestMemory → ℕ → ℕ → Result MemoryAccessError (Unit {0}) × TestMemory
unfolding store_at
write16 m addr value = store_at m (put16 value) (offset_for m addr 2)

unfoldable pub write32 : TestMemory → ℕ → ℕ → Result MemoryAccessError (Unit {0}) × TestMemory
unfolding store_at
write32 m addr value = store_at m (put32 value) (offset_for m addr 4)

instance abbrev pub test_memory_bus : MemoryBus TestMemory
test_memory_bus = record {
  read8 = read8;
  read16 = read16;
  read32 = read32;
  write8 = write8;
  write16 = write16;
  write32 = write32;
}
