-- ===== src/Screen/Text/Line.antt =====
-- A line of text (`handle_legacy_draw_text` of crates/vmrp-platform/src/lib.rs) and the dirty region.
use vmrp_rust.Prelude.{
  ℕ, ◌+◌, ◌-◌, ◌*◌, ◌≤◌, ◌<◌, ◌^◌, min, ◌≡◌, ◌∙◌, refl, ◌⊎◌, inl, inr, true, false, not, Option,
  none, some, List, [], ◌∷◌, length, arith, ltb, if◌then◌else◌,
}
use vmrp_rust.Prelude.Int.{ℤ, pos, pos_part, neg_part, add_i32}
use vmrp_rust.Prelude.Int.Sums.{add_i32_assoc, add_i32-zero}
use vmrp_rust.Prelude.Result.{Result, ok, err}
use vmrp_rust.Prelude.State.{and_then, pure, modify}
use vmrp_rust.Word.{bit}
use vmrp_rust.Abi.{Bytes}
use vmrp_rust.Cpu.Memory.{MemoryAccessError}
use vmrp_rust.Screen.{Screen, DrawError, unreadable, screen_width, off_screen, mark_dirty_region}
use vmrp_rust.Screen.Draws.{
  at, Leaves, Drawn, drawn, failed, Draws, Leaves-trans, pure-Draws, for_range-Draws, if-Draws,
  write_pixel-Draws,
}
use vmrp_rust.Screen.Region.{InSpan, Dirty, InScreen}
use vmrp_rust.Screen.Tracks.{
  IsI32, InRect, Tracks, Tracked, tracked, not_read, on_screen, span, mark_after,
}
use vmrp_rust.Screen.Text.{
  glyph_width, glyph_row, draw_column, draw_glyph, load_sky16_glyph, draw_sky16_char, draw_chars,
  draw_text,
}

module _ (x y : ℤ) (vx : IsI32 x) (vy : IsI32 y) where
  -- A column of a character that starts after `t` columns of its line.
  past :
      (t col w : ℕ)
      → t < 2 ^ 15
      → col < w
      → w ≤ 16
      → neg_part (add_i32 (add_i32 x (pos t)) (pos col)) ≡ 0
      → pos_part (add_i32 (add_i32 x (pos t)) (pos col)) < screen_width
      → InSpan x (t + w) (pos_part (add_i32 (add_i32 x (pos t)) (pos col)))
  past t col w ht hc hw p q = ground arith

  draw_column-Draws :
      (t row color data_row col w : ℕ)
      → t < 2 ^ 15
      → row < 16
      → col < w
      → w ≤ 16
      → Draws
          (InRect x y (t + w) 16)
          (draw_column (add_i32 x (pos t)) (add_i32 y (pos row)) color data_row col)
  unfolding draw_column
  draw_column-Draws t row color data_row col w ht hr hc hw =
      let xx = add_i32 (add_i32 x (pos t)) (pos col) in
      let yy = add_i32 y (pos row) in
      if-Draws (not (bit data_row (15 - col))) (pure tt) _ (λ _. pure-Draws tt)
        (λ _.
          if-Draws (off_screen xx yy) (pure tt) _ (λ _. pure-Draws tt)
            (λ p.
              let (nx, lx, ny, ly) = on_screen xx yy p in
              write_pixel-Draws (pos_part xx) (pos_part yy) color lx ly (
                past t col w ht hc hw nx lx,
                span y row 16 (pos_part yy) vy hr (omega arith) ny refl (omega arith),
              )))

  -- What a character gives after `t` columns: its width, and pixels in the line up to there.
  data Stroke (t : ℕ) (s : Screen) : Result DrawError ℕ × Screen → Type 0 where
    stroke :
        {width : ℕ} {u : Screen}
        → width ≤ 16
        → Leaves (InRect x y (t + width) 16) s u
        → Stroke t s (ok width, u)
    stopped :
        {e : MemoryAccessError} {u : Screen}
        → u.dirty_region ≡ s.dirty_region
        → Stroke t s (err (unreadable e), u)

  stroked :
      (t width : ℕ) (s : Screen) (r : Result DrawError (Unit {0}) × Screen)
      → width ≤ 16
      → Drawn (InRect x y (t + width) 16) s r
      → Stroke t s (and_then r (λ _. pure width))
  stroked t width s _ h (drawn l) = stroke h l
  stroked t width s _ h (failed l) = stopped l.dirty

  glyph_width-le : (ch : ℕ) → glyph_width ch ≤ 16
  glyph_width-le ch = ground arith

  draw_glyph-Stroke :
      (t ch color : ℕ) (glyph : Option Bytes) (s : Screen)
      → t < 2 ^ 15
      → Stroke t s (draw_glyph ch (add_i32 x (pos t)) y color glyph s)
  unfolding draw_glyph
  draw_glyph-Stroke t ch color none s ht =
      stroke (omega arith) (record { dirty = refl; pixels = λ px py hx hy. inl refl })
  draw_glyph-Stroke t ch color (some glyph) s ht =
      stroked t (glyph_width ch) s _ (glyph_width-le ch) (
        for_range-Draws 0 16 _
          (λ row a b. for_range-Draws 0 (glyph_width ch) _ (λ col c d.
            draw_column-Draws t row color (glyph_row glyph row) col (glyph_width ch) ht
              (omega arith) (omega arith) (glyph_width-le ch)))
          s)

  -- What a line gives from `t` columns on: the columns at its end, and pixels in those columns.
  pub data Line (t : ℕ) (s : Screen) : Result DrawError ℕ × Screen → Type 0 where
    line : {w : ℕ} {u : Screen} → t ≤ w → Leaves (InRect x y w 16) s u → Line t s (ok w, u)
    cut :
        {e : MemoryAccessError} {u : Screen}
        → u.dirty_region ≡ s.dirty_region
        → Line t s (err (unreadable e), u)

  wider : (v w px py : ℕ) → v ≤ w → InRect x y v 16 px py → InRect x y w 16 px py
  wider v w px py h ((a, b), c) = ((a, omega arith), c)

  after :
      {t : ℕ} {s u : Screen} (width : ℕ) (r : Result DrawError ℕ × Screen)
      → Leaves (InRect x y (t + width) 16) s u
      → Line (t + width) u r
      → Line t s r
  after {t} {s} {u} width _ l (line {w} {u = v} h k) = line (omega arith) (
      Leaves-trans
        (record { dirty = l.dirty; pixels = λ px py hx hy. wide px py (l.pixels px py hx hy) }) k)
    where
      wide :
          (px py : ℕ)
          → (at u px py ≡ at s px py) ⊎ InRect x y (t + width) 16 px py
          → (at u px py ≡ at s px py) ⊎ InRect x y w 16 px py
      wide px py (inl p) = inl p
      wide px py (inr c) = inr (wider (t + width) w px py h c)
  after width _ l (cut p) = cut (p ∙ l.dirty)

  stroke_and_rest :
      (font : Bytes) (chars : List ℕ) (color t : ℕ) (s : Screen) (r : Result DrawError ℕ × Screen)
      → t + 16 + 16 * length chars < 2 ^ 15
      → ((width : ℕ) (u : Screen)
          → width ≤ 16
          → Line
              (t + width)
              u
              (draw_chars font chars (add_i32 x (pos (t + width))) y color (t + width) u))
      → Stroke t s r
      → Line t s (
          and_then r (λ width.
            draw_chars font chars
              (add_i32 (add_i32 x (pos t)) (pos width))
              y
              color
              (min (t + width) (2 ^ 16 - 1))))
  stroke_and_rest font chars color t s _ ht rest (stroke {width} {u} h l) =
      let p : min (t + width) (2 ^ 16 - 1) ≡ t + width = omega arith in
      rw (p, add_i32_assoc x t width vx (omega arith)) (after width _ l (rest width u h))
  stroke_and_rest font chars color t s _ ht rest (stopped p) = cut p

  draw_chars-Line :
      (font : Bytes) (chars : List ℕ) (color t : ℕ) (s : Screen)
      → t + 16 * length chars < 2 ^ 15
      → Line t s (draw_chars font chars (add_i32 x (pos t)) y color t s)
  unfolding draw_chars draw_sky16_char
  draw_chars-Line font [] color t s ht =
      line (omega arith) (record { dirty = refl; pixels = λ px py hx hy. inl refl })
  draw_chars-Line font (ch ∷ chars) color t s ht =
      stroke_and_rest font chars color t s _ (omega arith)
        (λ width u h. draw_chars-Line font chars color (t + width) u (omega arith))
        (draw_glyph-Stroke t ch color (load_sky16_glyph font ch) s (omega arith))

  module _ (shown : ℕ → ℕ → ℕ) (s : Screen) (i : InScreen s.dirty_region)
      (track : Tracks shown s) where
    mark_line :
        (r : Result DrawError ℕ × Screen)
        → Line 0 s r
        → Tracked {A = Unit {0}} shown (
            and_then r (λ total_w.
              if ltb 0 total_w then modify (mark_dirty_region x y total_w 16) else pure tt))
    mark_line _ (line {w} {u} h l) =
        elim (ltb 0 w)
            as (λ b.
              ltb 0 w ≡ b
              → Tracked {A = Unit {0}} shown
                  ((if b then modify (mark_dirty_region x y w 16) else pure tt) u)) [
                    | true ↦ λ p. mark_after x y w 16 i track (ok tt, u) (drawn l)
                    | false ↦ λ p.
                        tracked (coe 1 0 (k. InScreen (l.dirty k)) i)
                          (λ px py hx hy. kept px py p (l.pixels px py hx hy) (track px py hx hy))
                  ]
          refl
      where
        kept :
            (px py : ℕ)
            → ltb 0 w ≡ false
            → (at u px py ≡ at s px py) ⊎ InRect x y w 16 px py
            → (at s px py ≡ shown px py) ⊎ Dirty px py s.dirty_region
            → (at u px py ≡ shown px py) ⊎ Dirty px py u.dirty_region
        kept px py p (inr ((a, b), c)) _ = absurd (ground arith)
        kept px py p (inl q) (inl r) = inl (q ∙ r)
        kept px py p (inl q) (inr d) = inr (coe 1 0 (k. Dirty px py (l.dirty k)) d)
    mark_line _ (cut {e} {u} p) = not_read (coe 1 0 (k. InScreen (p k)) i)

    pub draw_text-Tracked :
        (font : Bytes) (chars : List ℕ) (color : ℕ)
        → length chars ≤ 1024
        → Tracked shown (draw_text font chars x y color s)
    unfolding draw_text
    draw_text-Tracked font chars color h = mark_line _ (
        coe 0 1 (k. Line 0 s (draw_chars font chars (add_i32-zero x vx k) y color 0 s))
          (draw_chars-Line font chars color 0 s (omega arith)))
