-- ===== src/Guest/Moved.antt =====
-- What memmove (`handle_memmove` of crates/vmrp-platform/src/lib.rs) leaves in the flat RAM.
use vmrp_rust.Prelude.{
  ℕ, zero, suc, ◌+◌, ◌-◌, ◌%◌, ◌^◌, ◌≤◌, ◌<◌, ◌≡◌, ◌∙◌, ◌⊎◌, List, [], ◌∷◌, length, arith, refl, ap,
  sym,
}
use vmrp_rust.Prelude.Result.{Result}
use vmrp_rust.Prelude.State.{and_then, pure, ◌>>=◌, ◌>>◌}
use vmrp_rust.Word.{add32}
use vmrp_rust.Cpu.Memory.{TestMemory, MemoryAccessError, read8, write8, test_memory_bus}
use vmrp_rust.Cpu.Memory.RoundTrip.{InRange, offset_for-InRange}
use vmrp_rust.Abi.{Bytes, nth}
use vmrp_rust.Abi.Image.{write_from}
use vmrp_rust.Abi.Image.Contents.{Written, write_from-Written}
use vmrp_rust.Allocator.Ext.{Host, of_write}
use vmrp_rust.Guest.{load8, read_all, write_all, return_with, handle_memmove}

-- The loop of writes is that of `write_blob`.
write_all-write_from :
    (bytes : Bytes) (dst index : ℕ) (h : Host TestMemory)
    → write_all dst index bytes h ≡ of_write h (write_from dst index bytes h.memory)
unfolding write_all write_from
write_all-write_from [] dst index h = refl
write_all-write_from (b ∷ bytes) dst index h =
    cases (write8 h.memory (add32 dst (index % 2 ^ 32)) b)
      (λ m. write_all-write_from bytes dst (suc index) (record h { memory = m }))
  where
    cases :
        (x : Result MemoryAccessError (Unit {0}) × TestMemory)
        → ((m : TestMemory)
            → write_all dst (suc index) bytes (record h { memory = m })
              ≡ of_write h (write_from dst (suc index) bytes m))
        → and_then (of_write h x) (λ _. write_all dst (suc index) bytes)
          ≡ of_write h (and_then x (λ _. write_from dst (suc index) bytes))
    cases (Result.ok tt, m) f = f m
    cases (Result.err e, m) f = refl

-- The bytes that are read, when the range lies in the memory.
data ReadAll (h : Host TestMemory) (addr count : ℕ)
    : Result MemoryAccessError (List ℕ) × Host TestMemory → Type 0 where
  read :
      {bytes : List ℕ}
      → length bytes ≡ count
      → ((i : ℕ) → i < count → read8 h.memory (addr + i) ≡ Result.ok (nth bytes i))
      → ReadAll h addr count (Result.ok bytes, h)

nth_suc : (addr i : ℕ) → addr + suc i ≡ suc addr + i
nth_suc addr i = omega arith

nth_zero : (addr : ℕ) → addr + 0 ≡ addr
nth_zero addr = omega arith

-- One byte, and then the others.
read_first :
    (h : Host TestMemory) (src offset addr count b : ℕ)
    → add32 src offset ≡ addr
    → read8 h.memory addr ≡ Result.ok b
    → ReadAll h (suc addr) count (read_all src (suc offset) count h)
    → ReadAll h addr (suc count) (read_all src offset (suc count) h)
unfolding read_all
read_first h src offset addr count b p q r =
    coe 1 0
      (k. ReadAll h addr (suc count) (
        and_then (load8 (p k) h)
          (λ byte. read_all src (suc offset) count >>= λ bytes. pure (byte ∷ bytes))))
      (coe 1 0
        (k. ReadAll h addr (suc count) (
          and_then (q k, h)
            (λ byte. read_all src (suc offset) count >>= λ bytes. pure (byte ∷ bytes))))
        (rest _ r))
  where
    rest :
        (x : Result MemoryAccessError (List ℕ) × Host TestMemory)
        → ReadAll h (suc addr) count x
        → ReadAll h addr (suc count) (and_then x (λ bytes. pure (b ∷ bytes)))
    rest _ (read {bytes} len at) = read (ap suc len) here
      where
        here : (i : ℕ) → i < suc count → read8 h.memory (addr + i) ≡ Result.ok (nth (b ∷ bytes) i)
        here zero l = ap (λ a. read8 h.memory a) (nth_zero addr) ∙ q
        here (suc i) l = ap (λ a. read8 h.memory a) (nth_suc addr i) ∙ at i (omega (arith, l))

read8-InRange :
    (m : TestMemory) (addr : ℕ)
    → InRange m addr 1
    → read8 m addr ≡ Result.ok (m.byte (addr - m.base))
unfolding read8
read8-InRange m addr h = rw (offset_for-InRange m addr 1 h) refl

read_all-ReadAll :
    (h : Host TestMemory) (count src offset addr : ℕ)
    → addr ≡ src + offset
    → addr + count ≤ 2 ^ 32
    → InRange h.memory addr count
    → ReadAll h addr count (read_all src offset count h)
unfolding read_all
read_all-ReadAll h zero src offset addr p q r = read refl (λ i l. absurd (omega (arith, l)))
read_all-ReadAll h (suc count) src offset addr p q r =
    read_first h src offset addr count (h.memory.byte (addr - h.memory.base)) (omega (arith, p, q))
      (read8-InRange h.memory addr (record {
        above = omega (arith, r.above);
        below = omega (arith, r.below);
        sized = r.sized;
      }))
      (read_all-ReadAll h count src (suc offset) (suc addr) (omega (arith, p)) (omega (arith, q))
        (record {
          above = omega (arith, r.above);
          below = omega (arith, r.below);
          sized = r.sized;
        }))

-- The bytes of a range are at another one, as they were before, and all others are where they were.
abbrev pub Moved :
    Host TestMemory → ℕ → ℕ → ℕ → Result MemoryAccessError (Unit {0}) × Host TestMemory → Type 0
Moved h dst src len x =
    (x.0 ≡ Result.ok tt)
    × ((i : ℕ) → i < len → read8 (x.1.memory) (dst + i) ≡ read8 h.memory (src + i))
    × ((at : ℕ) → (at < dst) ⊎ (dst + len ≤ at) → read8 (x.1.memory) at ≡ read8 h.memory at)

module _ (h : Host TestMemory) (dst src len : ℕ) (source : InRange h.memory src len)
    (target : InRange h.memory dst len) (fits : h.memory.base + h.memory.len ≤ 2 ^ 32) where
  of_write-Moved :
      (bytes : Bytes)
      → length bytes ≡ len
      → ((i : ℕ) → i < len → read8 h.memory (src + i) ≡ Result.ok (nth bytes i))
      → (y : Result MemoryAccessError (Unit {0}) × TestMemory) → Written h.memory dst bytes y
      → Moved h dst src len (and_then (of_write h y) (λ _. return_with dst))
  unfolding return_with
  of_write-Moved bytes l at _ (Written.written base len' here there) = (
    refl,
    λ i b. here i (omega (arith, l, b)) ∙ sym (at i b),
    λ a b. there a (ground (arith, l, b)),
  )
  of_write-Moved bytes l at _ (Written.stopped above below out inside) =
      absurd (ground (arith, above, below, out, l, target.above, target.below))

  copied :
      (x : Result MemoryAccessError (List ℕ) × Host TestMemory)
      → ReadAll h src len x
      → Moved h dst src len (and_then x (λ bytes. write_all dst 0 bytes >> return_with dst))
  copied _ (read {bytes} l at) =
      coe 1 0
        (k.
          Moved h dst src len
            (and_then (write_all-write_from bytes dst 0 h k) (λ _. return_with dst)))
        (of_write-Moved bytes l at (write_from dst 0 bytes h.memory) (
          write_from-Written bytes dst 0 dst h.memory (omega arith)
            (omega (arith, l, target.below, fits)) target.sized))

-- When the source and the target of memmove lie in a RAM that ends at or below 2 ^ 32, the call
-- succeeds, each byte of the target is the byte that the source had before, however the two overlap,
-- and every byte outside the target is as before.
pub handle_memmove-Moved :
    (h : Host TestMemory)
    → InRange h.memory (h.regs.regs 1) (h.regs.regs 2)
    → InRange h.memory (h.regs.regs 0) (h.regs.regs 2)
    → h.memory.base + h.memory.len ≤ 2 ^ 32
    → Moved h (h.regs.regs 0) (h.regs.regs 1) (h.regs.regs 2) (handle_memmove h)
unfolding handle_memmove
handle_memmove-Moved h source target fits =
    copied h (h.regs.regs 0) (h.regs.regs 1) (h.regs.regs 2) source target fits _ (
      read_all-ReadAll h (h.regs.regs 2) (h.regs.regs 1) 0 (h.regs.regs 1) (omega arith)
        (omega (arith, source.below, fits)) source)
