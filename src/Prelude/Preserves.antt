-- ===== src/Prelude/Preserves.antt =====
-- Predicates on a state that stateful code keeps, whether it answers or fails.
use Prim.Native.Nat.{ℕ, zero, suc}
use mathlib.Core.Bool.{Bool, true, false}
use vmrp_rust.Prelude.Tests.{if◌then◌else◌}
use vmrp_rust.Prelude.Result.{Result, ok, err}
use vmrp_rust.Prelude.State.{Stateful, for_range, and_then, ◌>>=◌}

module _ {S E : Type 0} (P : S → Type 0) where
  abbrev pub Preserves : {A : Type 0} → Stateful S E A → Type 0
  Preserves m = (s : S) → P s → P ((m s).1)

  pub and_then-Preserves :
      {A B : Type 0} (x : Result E A × S) (f : A → Stateful S E B)
      → P (x.1)
      → ((a : A) → Preserves (f a))
      → P ((and_then x f).1)
  and_then-Preserves (ok a, s) f h k = k a s h
  and_then-Preserves (err e, s) f h k = h

  pub bind-Preserves :
      {A B : Type 0} (m : Stateful S E A) (f : A → Stateful S E B)
      → Preserves m
      → ((a : A) → Preserves (f a))
      → Preserves (m >>= f)
  bind-Preserves m f h k s p = and_then-Preserves (m s) f (h s p) k

  pub for_range-Preserves :
      (from count : ℕ) (body : ℕ → Stateful S E (Unit {0}))
      → ((i : ℕ) → Preserves (body i))
      → Preserves (for_range from count body)
  for_range-Preserves from zero body h s p = p
  for_range-Preserves from (suc count) body h s p =
      bind-Preserves (body from) (λ _. for_range (suc from) count body) (h from)
        (λ _. for_range-Preserves (suc from) count body h) s p

  pub if-Preserves :
      {A : Type 0} (t : Bool) (x y : Stateful S E A)
      → Preserves x
      → Preserves y
      → Preserves (if t then x else y)
  if-Preserves true x y h k = h
  if-Preserves false x y h k = k
