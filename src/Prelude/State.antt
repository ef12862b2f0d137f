-- ===== src/Prelude/State.antt =====
-- Code that changes a state and may return an error with `?`: what was changed before the error stays
-- changed.
use Prim.Native.Nat.{ℕ, zero, suc}
use vmrp_rust.Prelude.Result.{Result, ok, err}

abbrev pub Stateful : Type 0 → Type 0 → Type 0 → Type 0
Stateful S E A = S → Result E A × S

module _ {S E : Type 0} where
  abbrev pub and_then : {A B : Type 0} → Result E A × S → (A → Stateful S E B) → Result E B × S
  and_then (ok a, s) f = f a s
  and_then (err e, s) f = (err e, s)

  abbrev pub pure : {A : Type 0} → A → Stateful S E A
  pure a s = (ok a, s)

  -- A change of the state that cannot fail.
  abbrev pub modify : (S → S) → Stateful S E (Unit {0})
  modify f s = (ok tt, f s)

  -- A value read from the state.
  abbrev pub gets : {A : Type 0} → (S → A) → Stateful S E A
  gets f s = (ok (f s), s)

  infixl 5 ◌>>=◌ ◌>>◌
  abbrev pub ◌>>=◌ : {A B : Type 0} → Stateful S E A → (A → Stateful S E B) → Stateful S E B
  ◌>>=◌ m f s = and_then (m s) f

  abbrev pub ◌>>◌ : {B : Type 0} → Stateful S E (Unit {0}) → Stateful S E B → Stateful S E B
  m >> k = m >>= λ _. k

  -- `for offset in from..from + count { … }`.
  abbrev pub for_range : ℕ → ℕ → (ℕ → Stateful S E (Unit {0})) → Stateful S E (Unit {0})
  for_range from zero body = pure tt
  for_range from (suc count) body = body from >> for_range (suc from) count body
