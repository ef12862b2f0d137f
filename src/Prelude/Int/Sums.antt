-- ===== src/Prelude/Int/Sums.antt =====
-- Sums on i32 that wrap around: a natural is added to an i32 in one step or in two.
use Prim.Native.Nat.{ℕ, ◌+◌, ◌-◌, ◌^◌, ◌≤◌, ◌<◌}
use mathlib.Core.Path.{◌≡◌, ap}
use mathlib.Core.Logic.{inl, inr}
use native.Mathlib.Omega.{arith}
use vmrp_rust.Prelude.{ltb, leb, Bool-cases}
use vmrp_rust.Prelude.Int.{ℤ, pos, negsuc, pos_part, neg_part, add_i32}

pub add_i32-pos : (a b : ℕ) → a + b < 2 ^ 31 → add_i32 (pos a) (pos b) ≡ pos (a + b)
add_i32-pos a b h = ground arith

add_i32-pos_high :
    (a b : ℕ)
    → 2 ^ 31 ≤ a + b
    → a + b < 2 ^ 32
    → add_i32 (pos a) (pos b) ≡ negsuc (2 ^ 32 - (a + b) - 1)
add_i32-pos_high a b h k = ground arith

add_i32-negsuc : (a b : ℕ) → a < 2 ^ 31 → b ≤ a → add_i32 (negsuc a) (pos b) ≡ negsuc (a - b)
add_i32-negsuc a b h k = ground arith

add_i32-negsuc_high : (a b : ℕ) → a < b → b < 2 ^ 31 → add_i32 (negsuc a) (pos b) ≡ pos (b - a - 1)
add_i32-negsuc_high a b h k = ground arith

pub add_i32-zero : (x : ℤ) → (pos_part x < 2 ^ 31) × (neg_part x ≤ 2 ^ 31) → add_i32 x (pos 0) ≡ x
add_i32-zero (pos n) h = ground arith
add_i32-zero (negsuc n) h = ground arith

pub add_i32_assoc :
    (x : ℤ) (a b : ℕ)
    → (pos_part x < 2 ^ 31) × (neg_part x ≤ 2 ^ 31)
    → a + b < 2 ^ 30
    → add_i32 (add_i32 x (pos a)) (pos b) ≡ add_i32 x (pos (a + b))
add_i32_assoc (pos n) a b v h = elim (Bool-cases (ltb (n + a) (2 ^ 31))) [
  | inl p ↦ rw (add_i32-pos n a (ground arith)) (elim (Bool-cases (ltb (n + a + b) (2 ^ 31))) [
    | inl q ↦
        rw (add_i32-pos (n + a) b (ground arith), add_i32-pos n (a + b) (ground arith))
          (ap pos (omega arith))
    | inr q ↦
        rw
          (
            add_i32-pos_high (n + a) b (ground arith) (omega arith),
            add_i32-pos_high n (a + b) (ground arith) (omega arith),
          )
          (ap negsuc (omega arith))
  ])
  | inr p ↦
      rw
        (
          add_i32-pos_high n a (ground arith) (omega arith),
          add_i32-pos_high n (a + b) (ground arith) (omega arith),
          add_i32-negsuc (2 ^ 32 - (n + a) - 1) b (ground arith) (omega arith),
        )
        (ap negsuc (omega arith))
]
add_i32_assoc (negsuc n) a b v h = elim (Bool-cases (leb a n)) [
  | inl p ↦
      rw (add_i32-negsuc n a (omega arith) (ground arith)) (elim (Bool-cases (leb (a + b) n)) [
        | inl q ↦
            rw
              (
                add_i32-negsuc (n - a) b (omega arith) (ground arith),
                add_i32-negsuc n (a + b) (omega arith) (ground arith),
              )
              (ap negsuc (omega arith))
        | inr q ↦
            rw
              (
                add_i32-negsuc_high (n - a) b (ground arith) (omega arith),
                add_i32-negsuc_high n (a + b) (ground arith) (omega arith),
              )
              (ap pos (ground arith))
      ])
  | inr p ↦
      rw
        (
          add_i32-negsuc_high n a (ground arith) (omega arith),
          add_i32-negsuc_high n (a + b) (ground arith) (omega arith),
          add_i32-pos (a - n - 1) b (omega arith),
        )
        (ap pos (ground arith))
]
