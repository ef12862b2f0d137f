-- ===== src/Abi/Outcome.antt =====
-- What a parser does: it answers, it fails with an error, it panics or aborts, or it is out of fuel.
use vmrp_rust.Prelude.{Option, none, some}

pub data Outcome (E A : Type 0) : Type 0 where
  ok : A → Outcome E A
  err : E → Outcome E A
  panicked : Outcome E A
  out_of_fuel : Outcome E A

infixl 5 ◌>>=◌
abbrev pub ◌>>=◌ : {E A B : Type 0} → Outcome E A → (A → Outcome E B) → Outcome E B
ok a >>= f = f a
err e >>= f = err e
panicked >>= f = panicked
out_of_fuel >>= f = out_of_fuel

-- A step that panics when it has no answer.
abbrev pub or_panic : {E A : Type 0} → Option A → Outcome E A
or_panic none = panicked
or_panic (some a) = ok a

-- `option.ok_or(e)?`.
abbrev pub ok_or : {E A : Type 0} → E → Option A → Outcome E A
ok_or e none = err e
ok_or e (some a) = ok a

-- A parser never panics and never runs out of fuel, and what it answers has a property.
pub data Safely {E A : Type 0} (P : A → Type 0) : Outcome E A → Type 0 where
  answers : {a : A} → P a → Safely P (ok a)
  fails : {e : E} → Safely P (err e)

module _ {E A B : Type 0} {P : A → Type 0} {Q : B → Type 0} where
  pub bind-Safely :
      (m : Outcome E A) (f : A → Outcome E B)
      → Safely P m
      → ((a : A) → P a → Safely Q (f a))
      → Safely Q (m >>= f)
  bind-Safely _ f (answers {a} h) k = k a h
  bind-Safely _ f fails k = fails

pub weaken-Safely :
    {E A : Type 0} {P Q : A → Type 0} {x : Outcome E A}
    → Safely P x
    → ((a : A) → P a → Q a)
    → Safely Q x
weaken-Safely (answers {a} h) f = answers (f a h)
weaken-Safely fails f = fails
