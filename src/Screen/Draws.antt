-- ===== src/Screen/Draws.antt =====
-- Code that draws (crates/vmrp-platform/src/lib.rs): which pixels it may change, and that no index is
-- out of range.
use vmrp_rust.Prelude.{
  ℕ, zero, suc, ◌+◌, ◌-◌, leb, ◌&&◌, ◌||◌, ◌*◌, ◌≤◌, ◌<◌, ◌≡◌, ◌∙◌, refl, ◌⊎◌, inl, inr, Bool, true,
  false, arith, if◌then◌else◌, ltb, lt→ltb, ==_iff, ◌==◌, Bool-cases,
}
use vmrp_rust.Prelude.Result.{Result, ok, err}
use vmrp_rust.Prelude.State.{pure, for_range, and_then, ◌>>=◌}
use vmrp_rust.Cpu.Memory.{MemoryAccessError, update}
use vmrp_rust.Screen.{
  Screen, Draw, DrawError, unreadable, write_pixel, of_read, screen_width, screen_height,
}

-- The pixel in column x and row y.
abbrev pub at : Screen → ℕ → ℕ → ℕ
at s x y = s.screen_buffer (y * screen_width + x)

-- The columns from `x0` to `x1` and the rows from `y0` to `y1`.
abbrev pub in_area : ℕ → ℕ → ℕ → ℕ → ℕ → ℕ → Bool
in_area x0 x1 y0 y1 x y = leb x0 x && ltb x x1 && leb y0 y && ltb y y1

module _ (x0 x1 y0 y1 x y : ℕ) where
  pub no_area : (leb x1 x0 || leb y1 y0) ≡ true → in_area x0 x1 y0 y1 x y ≡ false
  no_area p = ground arith

  pub same_area :
      (leb x1 x0 || leb y1 y0) ≡ false
      → in_area x0 (x0 + (x1 - x0)) y0 (y0 + (y1 - y0)) x y ≡ in_area x0 x1 y0 y1 x y
  same_area p = ground arith

-- A pixel of the screen that changed is in the area, and the dirty region is the same.
pub record Leaves (R : ℕ → ℕ → Type 0) (s t : Screen) : Type 0 where
  pub dirty : t.dirty_region ≡ s.dirty_region
  pub pixels : (x y : ℕ) → x < screen_width → y < screen_height → (at t x y ≡ at s x y) ⊎ R x y

-- What drawing gives: an answer or a failed read, never a panic.
pub data Drawn {A : Type 0} (R : ℕ → ℕ → Type 0) (s : Screen)
    : Result DrawError A × Screen → Type 0 where
  drawn : {a : A} {t : Screen} → Leaves R s t → Drawn R s (ok a, t)
  failed : {e : MemoryAccessError} {t : Screen} → Leaves R s t → Drawn R s (err (unreadable e), t)

abbrev pub Draws : {A : Type 0} → (ℕ → ℕ → Type 0) → Draw A → Type 0
Draws {A} R m = (s : Screen) → Drawn {A = A} R s (m s)

pub Leaves-refl : {R : ℕ → ℕ → Type 0} {s : Screen} → Leaves R s s
Leaves-refl = record { dirty = refl; pixels = λ x y hx hy. inl refl }

module _ {R : ℕ → ℕ → Type 0} where
  pub Leaves-trans : {s t u : Screen} → Leaves R s t → Leaves R t u → Leaves R s u
  Leaves-trans {s} {t} {u} h k = record {
    dirty = k.dirty ∙ h.dirty;
    pixels = λ x y hx hy. both x y (h.pixels x y hx hy) (k.pixels x y hx hy);
  }
    where
      both :
          (x y : ℕ)
          → (at t x y ≡ at s x y) ⊎ R x y
          → (at u x y ≡ at t x y) ⊎ R x y
          → (at u x y ≡ at s x y) ⊎ R x y
      both x y (inr r) _ = inr r
      both x y (inl _) (inr r) = inr r
      both x y (inl p) (inl q) = inl (q ∙ p)

  after :
      {A : Type 0} {s t : Screen} (x : Result DrawError A × Screen)
      → Leaves R s t
      → Drawn R t x
      → Drawn R s x
  after _ h (drawn k) = drawn (Leaves-trans h k)
  after _ h (failed k) = failed (Leaves-trans h k)

  and_then-Draws :
      {A B : Type 0} {s : Screen} (x : Result DrawError A × Screen) (f : A → Draw B)
      → Drawn R s x
      → ((a : A) → Draws R (f a))
      → Drawn R s (and_then x f)
  and_then-Draws _ f (drawn {a} {t} h) k = after (f a t) h (k a t)
  and_then-Draws _ f (failed h) k = failed h

  pub bind-Draws :
      {A B : Type 0} (m : Draw A) (f : A → Draw B)
      → Draws R m
      → ((a : A) → Draws R (f a))
      → Draws R (m >>= f)
  bind-Draws m f h k s = and_then-Draws (m s) f (h s) k

  pub pure-Draws : {A : Type 0} (a : A) → Draws R (pure a)
  pure-Draws a s = drawn Leaves-refl

  pub of_read-Draws : {A : Type 0} (r : Result MemoryAccessError A) → Draws R (of_read r)
  of_read-Draws (ok a) s = drawn Leaves-refl
  of_read-Draws (err e) s = failed Leaves-refl

  -- A loop, when each round from its first index to its last draws in the area.
  pub for_range-Draws :
      (from count : ℕ) (body : ℕ → Draw (Unit {0}))
      → ((i : ℕ) → from ≤ i → i < from + count → Draws R (body i))
      → Draws R (for_range from count body)
  for_range-Draws from zero body h = pure-Draws tt
  for_range-Draws from (suc count) body h =
      bind-Draws (body from) (λ _. for_range (suc from) count body)
        (h from (omega arith) (omega arith))
        (λ _. for_range-Draws (suc from) count body (λ i p q. h i (omega arith) (omega arith)))

  -- A test whose outcome the branches may use.
  pub if-Draws :
      {A : Type 0} (t : Bool) (m n : Draw A)
      → (t ≡ true → Draws R m)
      → (t ≡ false → Draws R n)
      → Draws R (if t then m else n)
  if-Draws true m n h k = h refl
  if-Draws false m n h k = k refl

  update-Leaves :
      (s : Screen) (x y color : ℕ)
      → x < screen_width
      → R x y
      → Leaves R s
          (record s { screen_buffer = update s.screen_buffer (y * screen_width + x) color })
  update-Leaves s x y color hx r = record {
    dirty = refl;
    pixels = λ px py hpx hpy. elim (Bool-cases (py * screen_width + px == y * screen_width + x)) [
      | inl p ↦ inr (same px py hpx ((==_iff _ _).0 p))
      | inr p ↦ inl (rw p refl)
    ];
  }
    where
      same :
          (px py : ℕ) → px < screen_width → py * screen_width + px ≡ y * screen_width + x → R px py
      same px py hpx p =
          let ex : x ≡ px = omega arith in
          let ey : y ≡ py = omega arith in coe 0 1 (k. R (ex k) (ey k)) r

  -- A pixel of the area is written.
  pub write_pixel-Draws :
      (x y color : ℕ)
      → x < screen_width
      → y < screen_height
      → R x y
      → Draws R (write_pixel (y * screen_width + x) color)
  unfolding write_pixel
  write_pixel-Draws x y color hx hy r s =
      rw (lt→ltb (y * screen_width + x) (screen_width * screen_height) (omega arith))
        (drawn (update-Leaves s x y color hx r))
