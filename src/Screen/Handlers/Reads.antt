-- ===== src/Screen/Handlers/Reads.antt =====
-- The parts of the drawing services (crates/vmrp-platform/src/lib.rs) that read the guest's memory and
-- the screen and change neither.
use vmrp_rust.Prelude.{
  ℕ, zero, suc, ◌+◌, ◌*◌, ◌≤◌, ◌%◌, ◌^◌, Bool, true, false, List, [], ◌∷◌, length, arith,
  if◌then◌else◌, ◌==◌, ◌!=◌,
}
use vmrp_rust.Prelude.Int.{ℤ, pos, add_i32}
use vmrp_rust.Prelude.Result.{Result, ok, err}
use vmrp_rust.Prelude.State.{and_then, pure, gets, ◌>>=◌}
use vmrp_rust.Word.{add32, mul32}
use vmrp_rust.Cpu.Memory.{MemoryAccessError, MemoryBus}
use vmrp_rust.Screen.{
  Screen, Draw, DrawError, unreadable, of_read, off_screen, pixel_index, read_pixel, count_pixel,
  count_columns, count_rows, count_non_matching_bitmap_pixels,
}
use vmrp_rust.Screen.Text.{read_wide, read_narrow, read_guest_text_chars}

-- An answer with a property, or a failed read; the screen is the same.
pub data Got {A : Type 0} (P : A → Type 0) (s : Screen) : Result DrawError A × Screen → Type 0 where
  got : {a : A} → P a → Got P s (ok a, s)
  not_read : {e : MemoryAccessError} → Got P s (err (unreadable e), s)

abbrev pub Reads : {A : Type 0} → (A → Type 0) → Draw A → Type 0
Reads P m = (s : Screen) → Got P s (m s)

module _ {A B : Type 0} {P : A → Type 0} {Q : B → Type 0} where
  and_then-Got :
      {s : Screen} (x : Result DrawError A × Screen) (f : A → Draw B)
      → Got P s x
      → ((a : A) → P a → Reads Q (f a))
      → Got Q s (and_then x f)
  and_then-Got {s} _ f (got {a} p) k = k a p s
  and_then-Got _ f not_read k = not_read

  bind-Reads :
      (m : Draw A) (f : A → Draw B)
      → Reads P m
      → ((a : A) → P a → Reads Q (f a))
      → Reads Q (m >>= f)
  bind-Reads m f h k s = and_then-Got (m s) f (h s) k

if-Reads :
    {A : Type 0} {P : A → Type 0} (t : Bool) (m n : Draw A)
    → Reads P m
    → Reads P n
    → Reads P (if t then m else n)
if-Reads true m n h k = h
if-Reads false m n h k = k

pure-Reads : {A : Type 0} {P : A → Type 0} (a : A) → P a → Reads P (pure a)
pure-Reads a p s = got p

abbrev pub Any : {A : Type 0} → A → Type 0
Any a = Unit {0}

of_read-Reads : {A : Type 0} (r : Result MemoryAccessError A) → Reads Any (of_read r)
of_read-Reads (ok a) s = got tt
of_read-Reads (err e) s = not_read

abbrev AtMost : ℕ → List ℕ → Type 0
AtMost n chars = length chars ≤ n

-- The end of a round of the loops over characters.
next_char :
    (ch left : ℕ) (rest : Draw (List ℕ))
    → Reads (AtMost left) rest
    → Reads (AtMost (suc left)) (if ch == 0 then pure [] else (rest >>= λ chars. pure (ch ∷ chars)))
next_char ch left rest h =
    if-Reads (ch == 0) (pure []) (rest >>= λ chars. pure (ch ∷ chars)) (pure-Reads [] (omega arith))
      (bind-Reads rest (λ chars. pure (ch ∷ chars)) h
        (λ chars k. pure-Reads (ch ∷ chars) (omega arith)))

module _ {M : Type 0} ⦃bus : MemoryBus M⦄ (memory : M) where
  read_wide-Reads : (addr index left : ℕ) → Reads (AtMost left) (read_wide memory addr index left)
  unfolding read_wide
  read_wide-Reads addr index zero = pure-Reads [] (omega arith)
  read_wide-Reads addr index (suc left) =
      let offset = mul32 (index % 2 ^ 32) 2 in
      bind-Reads {P = Any} _ _ (of_read-Reads (bus.read8 memory (add32 addr offset))) (λ hi _.
        bind-Reads {P = Any} _ _ (of_read-Reads (bus.read8 memory (add32 (add32 addr offset) 1)))
          (λ lo _.
            next_char (lo + hi * 2 ^ 8) left (read_wide memory addr (suc index) left)
              (read_wide-Reads addr (suc index) left)))

  read_narrow-Reads :
      (addr index left : ℕ) → Reads (AtMost left) (read_narrow memory addr index left)
  unfolding read_narrow
  read_narrow-Reads addr index zero = pure-Reads [] (omega arith)
  read_narrow-Reads addr index (suc left) =
      bind-Reads {P = Any} _ _ (of_read-Reads (bus.read8 memory (add32 addr (index % 2 ^ 32))))
        (λ ch _.
          next_char ch left (read_narrow memory addr (suc index) left)
            (read_narrow-Reads addr (suc index) left))

  -- No more characters are read than are asked for.
  pub read_guest_text_chars-Reads :
      (addr : ℕ) (is_unicode : Bool) (max_chars : ℕ)
      → Reads (AtMost max_chars) (read_guest_text_chars memory addr is_unicode max_chars)
  unfolding read_guest_text_chars
  read_guest_text_chars-Reads addr is_unicode max_chars =
      if-Reads (addr == 0) _ _ (pure-Reads [] (omega arith)) (
        if-Reads is_unicode _ _ (read_wide-Reads addr 0 max_chars)
          (read_narrow-Reads addr 0 max_chars))

  module _ (bmp_ptr : ℕ) (x y : ℤ) (w transparent color_check : ℕ) where
    count_pixel-Reads :
        (xx yy : ℤ) (src_index count : ℕ)
        → Reads Any (count_pixel memory bmp_ptr transparent color_check xx yy src_index count)
    unfolding count_pixel
    count_pixel-Reads xx yy src_index count =
        if-Reads (off_screen xx yy) (pure count) _ (pure-Reads count tt) (
          bind-Reads {P = Any} (read_pixel memory bmp_ptr src_index) _ (of_read-Reads _) (λ pixel _.
            bind-Reads {P = Any} (gets (λ s. s.screen_buffer (pixel_index xx yy))) _ (λ s. got tt)
              (λ shown _. if-Reads (pixel == transparent) (pure count) _ (pure-Reads count tt) (
                if-Reads (shown != color_check) (pure (count + 1)) (pure count)
                  (pure-Reads (count + 1) tt) (pure-Reads count tt)))))

    count_columns-Reads :
        (j i left count : ℕ)
        → Reads Any (count_columns memory bmp_ptr x y w transparent color_check j i left count)
    unfolding count_columns
    count_columns-Reads j i zero count = pure-Reads count tt
    count_columns-Reads j i (suc left) count =
        bind-Reads {P = Any} _ _
          (count_pixel-Reads (add_i32 x (pos i)) (add_i32 y (pos j)) (i + j * w) count)
          (λ next _. count_columns-Reads j (suc i) left next)

    count_rows-Reads :
        (j left count : ℕ)
        → Reads Any (count_rows memory bmp_ptr x y w transparent color_check j left count)
    unfolding count_rows
    count_rows-Reads j zero count = pure-Reads count tt
    count_rows-Reads j (suc left) count =
        bind-Reads {P = Any} _ _ (count_columns-Reads j 0 w count)
          (λ next _. count_rows-Reads (suc j) left next)

    pub count_non_matching_bitmap_pixels-Reads :
        (h : ℕ)
        → Reads Any
            (count_non_matching_bitmap_pixels memory bmp_ptr x y w h transparent color_check)
    unfolding count_non_matching_bitmap_pixels
    count_non_matching_bitmap_pixels-Reads h = count_rows-Reads 0 h 0
