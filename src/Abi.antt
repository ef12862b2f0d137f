-- ===== src/Abi.antt =====
-- crates/vmrp-abi and the address space of crates/vmrp-core: the files that the emulator loads, and
-- the memory that it loads them into.
pub mod Outcome
pub mod Layout
pub mod Image
pub mod Ext
pub mod Written
pub mod Mrp
pub mod Mr
mod Tests
use vmrp_rust.Prelude.{
  ℕ, zero, suc, ◌+◌, ◌-◌, ◌*◌, ◌^◌, Option, none, some, List, [], ◌∷◌, ◌||◌, ◌&&◌, Bool, true,
  false, length, take, drop, ltb, leb, ◌==◌, if◌then◌else◌,
}
use vmrp_rust.Cpu.Memory.{from_le_bytes32}

-- A slice of u8, and a string as the bytes of its UTF-8.
abbrev pub Bytes : Type 0
Bytes = List ℕ

-- `bytes[i]` where `i` is in range.
abbrev pub nth : Bytes → ℕ → ℕ
nth [] i = 0
nth (b ∷ bs) zero = b
nth (b ∷ bs) (suc i) = nth bs i

-- `&bytes[start..end]`, which panics out of range.
unfoldable pub slice : Bytes → ℕ → ℕ → Option Bytes
slice bytes start end =
    if ltb end start || ltb (length bytes) end
    then none
    else some (take (end - start) (drop start bytes))

-- `a == b` on slices and on strings.
abbrev pub eq_bytes : Bytes → Bytes → Bool
eq_bytes [] [] = true
eq_bytes [] (b ∷ bs) = false
eq_bytes (a ∷ rest) [] = false
eq_bytes (a ∷ rest) (b ∷ bs) = (a == b) && eq_bytes rest bs

abbrev pub le_u32 : Bytes → ℕ → ℕ
le_u32 bytes offset =
    from_le_bytes32 (nth bytes offset) (nth bytes (offset + 1)) (nth bytes (offset + 2))
      (nth bytes (offset + 3))
