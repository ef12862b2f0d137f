-- ===== src/Screen/Fill.antt =====
-- What `fill_screen_rect` of crates/vmrp-platform/src/lib.rs paints.
use vmrp_rust.Prelude.{
  ℕ, zero, suc, ◌+◌, ◌-◌, ◌*◌, ◌≤◌, ◌<◌, ◌≡◌, refl, sym, ap, ◌∙◌, inl, inr, Bool, ◌&&◌, ◌||◌, ltb,
  leb, ◌==◌, if◌then◌else◌, arith, lt→ltb, Bool-cases,
}
use vmrp_rust.Prelude.Int.{ℤ, pos, pos_part, add_i32, saturating_add_i32}
use vmrp_rust.Prelude.Result.{Result, ok}
use vmrp_rust.Prelude.State.{and_then, pure, modify, for_range, ◌>>◌}
use vmrp_rust.Cpu.Memory.{update}
use vmrp_rust.Screen.{
  Screen, DrawError, screen_width, screen_height, clamp, write_pixel, mark_dirty_region,
  fill_screen_rect,
}
use vmrp_rust.Screen.Draws.{at, in_area, no_area, same_area}

-- A return with the area in the color and the other pixels as they were.
pub record Painted (area : ℕ → ℕ → Bool) (color : ℕ) (s : Screen)
    (r : Result DrawError (Unit {0}) × Screen) : Type 0 where
  pub out : Screen
  pub returns : r ≡ (ok tt, out)
  pub pixels :
      (x y : ℕ)
      → x < screen_width
      → y < screen_height
      → at out x y ≡ (if area x y then color else at s x y)

mark_dirty_region_buffer :
    (x y : ℤ) (w h : ℕ) (s : Screen) → (mark_dirty_region x y w h s).screen_buffer ≡ s.screen_buffer
unfolding mark_dirty_region
mark_dirty_region_buffer x y w h s =
    let x0 = clamp screen_width x in
    let y0 = clamp screen_height y in
    let x1 = clamp screen_width (saturating_add_i32 x (pos w)) in
    let y1 = clamp screen_height (saturating_add_i32 y (pos h)) in
    elim (Bool-cases (leb x1 x0 || leb y1 y0)) [ inl p ↦ rw p refl | inr p ↦ rw p refl ]

module _ (color : ℕ) where
  write_pixel-Painted :
      (xx yy : ℕ) (s : Screen)
      → xx < screen_width
      → yy < screen_height
      → Painted
          (λ x y. (x == xx) && (y == yy))
          color
          s
          (write_pixel (yy * screen_width + xx) color s)
  unfolding write_pixel
  write_pixel-Painted xx yy s hx hy =
      let index = yy * screen_width + xx in
      record {
        out = record s { screen_buffer = update s.screen_buffer index color };
        returns = rw (lt→ltb index (screen_width * screen_height) (omega arith)) refl;
        pixels = λ x y px py. ap (λ t. if t then color else at s x y) (same_pixel x y px);
      }
    where
      same_pixel :
          (x y : ℕ)
          → x < screen_width
          → (y * screen_width + x == yy * screen_width + xx) ≡ ((x == xx) && (y == yy))
      same_pixel x y px = ground arith

  row-Painted :
      (yy x0 n : ℕ) (s : Screen)
      → yy < screen_height
      → x0 + n ≤ screen_width
      → Painted
          (λ x y. leb x0 x && ltb x (x0 + n) && (y == yy))
          color
          s
          (for_range x0 n (λ x. write_pixel (yy * screen_width + x) color) s)
  row-Painted yy x0 zero s hy hx = record {
    out = s;
    returns = refl;
    pixels = λ x y px py. ground arith;
  }
  row-Painted yy x0 (suc n) s hy hx =
      let first = write_pixel-Painted x0 yy s (omega arith) hy in
      let rest = row-Painted yy (suc x0) n first.out hy (omega arith) in
      record {
        out = rest.out;
        returns = rw first.returns rest.returns;
        pixels = λ x y px py. ground (arith, first.pixels x y px py, rest.pixels x y px py);
      }

  rows-Painted :
      (x0 cols y0 n : ℕ) (s : Screen)
      → y0 + n ≤ screen_height
      → x0 + cols ≤ screen_width
      → Painted
          (λ x y. leb x0 x && ltb x (x0 + cols) && leb y0 y && ltb y (y0 + n))
          color
          s
          (for_range y0 n
            (λ y. for_range x0 cols (λ x. write_pixel (y * screen_width + x) color))
            s)
  rows-Painted x0 cols y0 zero s hy hx = record {
    out = s;
    returns = refl;
    pixels = λ x y px py. ground arith;
  }
  rows-Painted x0 cols y0 (suc n) s hy hx =
      let row = row-Painted y0 x0 cols s (omega arith) hx in
      let rest = rows-Painted x0 cols (suc y0) n row.out (omega arith) hx in
      record {
        out = rest.out;
        returns = rw row.returns rest.returns;
        pixels = λ x y px py. ground (arith, row.pixels x y px py, rest.pixels x y px py);
      }

  marked_after :
      (x0 x1 y0 y1 : ℕ) (s : Screen) (r : Result DrawError (Unit {0}) × Screen)
      → Painted (in_area x0 x1 y0 y1) color s r
      → Painted
          (in_area x0 x1 y0 y1)
          color
          s
          (and_then r (λ _. modify (mark_dirty_region (pos x0) (pos y0) (x1 - x0) (y1 - y0))))
  marked_after x0 x1 y0 y1 s r p = record {
    out = mark_dirty_region (pos x0) (pos y0) (x1 - x0) (y1 - y0) p.out;
    returns = rw p.returns refl;
    pixels = λ x y px py.
        ap (λ b. b (y * screen_width + x))
          (mark_dirty_region_buffer (pos x0) (pos y0) (x1 - x0) (y1 - y0) p.out)
        ∙ p.pixels x y px py;
  }

  area-Painted :
      (x0 x1 y0 y1 : ℕ) (s : Screen)
      → x1 ≤ screen_width
      → y1 ≤ screen_height
      → Painted (in_area x0 x1 y0 y1) color s (
          (if leb x1 x0 || leb y1 y0
              then pure tt
              else (for_range y0 (y1 - y0) (λ yy.
                    for_range x0 (x1 - x0) (λ xx. write_pixel (yy * screen_width + xx) color))
                  >> modify (mark_dirty_region (pos x0) (pos y0) (x1 - x0) (y1 - y0))))
            s)
  area-Painted x0 x1 y0 y1 s hx hy = elim (Bool-cases (leb x1 x0 || leb y1 y0)) [
    | inl p ↦ record {
      out = s;
      returns = rw p refl;
      pixels = λ x y px py. rw (no_area x0 x1 y0 y1 x y p) refl;
    }
    | inr p ↦
        let all = rows-Painted x0 (x1 - x0) y0 (y1 - y0) s (ground arith) (ground arith) in
        rw p (
          marked_after x0 x1 y0 y1 s _ (record {
            out = all.out;
            returns = all.returns;
            pixels = λ x y px py. rw (sym (same_area x0 x1 y0 y1 x y p)) (all.pixels x y px py);
          }))
  ]

  -- Filling any rectangle, on the screen or not, returns without a panic: the pixels from column
  -- max(x, 0) to before min(x + w, 240) and from row max(y, 0) to before min(y + h, 320), with the sums
  -- on i32 wrapped around, have the color, and the other pixels of the screen are as they were.
  pub fill_screen_rect-Painted :
      (x y w h : ℤ) (s : Screen)
      → Painted
          (in_area
            (pos_part x)
            (clamp screen_width (add_i32 x w))
            (pos_part y)
            (clamp screen_height (add_i32 y h)))
          color
          s
          (fill_screen_rect x y w h color s)
  unfolding fill_screen_rect
  fill_screen_rect-Painted x y w h s =
      area-Painted (pos_part x) (clamp screen_width (add_i32 x w)) (pos_part y)
        (clamp screen_height (add_i32 y h)) s (omega arith) (omega arith)
