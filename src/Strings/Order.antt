-- ===== src/Strings/Order.antt =====
-- strcmp and strncmp (`compare_guest_c_strings` of crates/vmrp-platform/src/lib.rs) are the order of the
-- dictionary.
use vmrp_rust.Prelude.{
  ℕ, zero, suc, ◌<◌, ◌^◌, ◌-◌, Option, none, some, [], ◌∷◌, length, take, arith,
}
use vmrp_rust.Prelude.Int.{ℤ}
use vmrp_rust.Abi.{Bytes}
use vmrp_rust.Abi.Outcome.{Outcome, ok}
use vmrp_rust.Cpu.Memory.{MemoryAccessError, MemoryBus}
use vmrp_rust.Strings.{compare_guest_c_strings}
use vmrp_rust.Strings.Compared.{
  Holds, ends, byte, taken, AreNonzero, Tells, difference-Tells, compare_from-difference,
}

-- An answer that tells the order of two strings.
pub data Orders (s t : Bytes) : Outcome MemoryAccessError ℤ → Type 0 where
  orders : {d : ℤ} → Tells s t d → Orders s t (ok d)

Holds-AreNonzero :
    {M : Type 0} {bus : MemoryBus M} {memory : M} {addr offset : ℕ} (s : Bytes)
    → Holds bus memory addr offset s
    → AreNonzero s
Holds-AreNonzero _ (ends p) = tt
Holds-AreNonzero _ (byte b {s = s} hb p h) = (hb, Holds-AreNonzero s h)

take-AreNonzero : (n : ℕ) (s : Bytes) → AreNonzero s → AreNonzero (take n s)
take-AreNonzero zero s h = tt
take-AreNonzero (suc n) [] h = tt
take-AreNonzero (suc n) (b ∷ s) (hb, h) = (hb, take-AreNonzero n s h)

taken-AreNonzero : (l : Option ℕ) (s : Bytes) → AreNonzero s → AreNonzero (taken l 0 s)
taken-AreNonzero none s h = h
taken-AreNonzero (some n) s h = take-AreNonzero (n - 0) s h

module _ {M : Type 0} ⦃bus : MemoryBus M⦄ (memory : M) where
  -- On two strings in the memory, with more fuel than the first has bytes, the comparison answers: 0
  -- exactly when the strings are equal, and a negative number exactly when the first comes before the
  -- second in the order of the dictionary. With a limit this holds of as many first bytes of both.
  pub compare_guest_c_strings-Orders :
      (fuel left right : ℕ) (l : Option ℕ) (s t : Bytes)
      → length s < fuel
      → length s < 2 ^ 32
      → Holds bus memory left 0 s
      → Holds bus memory right 0 t
      → Orders (taken l 0 s) (taken l 0 t) (compare_guest_c_strings memory fuel left right l)
  unfolding compare_guest_c_strings
  compare_guest_c_strings-Orders fuel left right l s t h k x y =
      rw (compare_from-difference memory left right l fuel 0 s t h (omega arith) x y) (
        orders (
          difference-Tells (taken l 0 s) (taken l 0 t) (taken-AreNonzero l s (Holds-AreNonzero s x))
            (taken-AreNonzero l t (Holds-AreNonzero t y))))
