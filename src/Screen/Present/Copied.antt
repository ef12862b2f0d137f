-- ===== src/Screen/Present/Copied.antt =====
-- What `copy_rgb565_region_to_bgra` of apps/vmrp-windows/src/presenter.rs copies, for a window as large
-- as the screen.
use vmrp_rust.Prelude.{
  ℕ, zero, suc, ◌+◌, ◌-◌, ◌*◌, ◌≤◌, ◌<◌, ◌≡◌, refl, sym, ◌∙◌, ◌⊎◌, inl, inr, Bool, ◌&&◌, ◌||◌, List,
  [], ◌∷◌, ltb, leb, ◌==◌, if◌then◌else◌, arith, lt→ltb, Bool-cases,
}
use vmrp_rust.Prelude.Int.{pos, pos_part, add_i32}
use vmrp_rust.Prelude.Result.{Result, ok}
use vmrp_rust.Prelude.State.{pure, for_range}
use vmrp_rust.Cpu.Memory.{update}
use vmrp_rust.Screen.{screen_width, screen_height, clamp}
use vmrp_rust.Screen.Draws.{in_area, no_area, same_area}
use vmrp_rust.Screen.Present.{
  Buffer, Panic, DirtyRect, read_source, write_dest, blue, green, red, copy_pixel,
  copy_rgb565_region_to_bgra,
}

-- The four bytes of a pixel.
abbrev pub bgra : ℕ → List ℕ
bgra src = blue src ∷ green src ∷ red src ∷ 0xFF ∷ []

abbrev four : (ℕ → ℕ) → ℕ → List ℕ
four f o = f o ∷ f (o + 1) ∷ f (o + 2) ∷ f (o + 3) ∷ []

-- The four bytes of the window for the pixel in column x and row y.
abbrev pub window_at : Buffer → ℕ → ℕ → List ℕ
window_at b x y = four b.item ((y * screen_width + x) * 4)

-- Room for each pixel of the screen.
abbrev pub HasRoom : Buffer → Type 0
HasRoom b = screen_width * screen_height * 4 ≤ b.len

abbrev put4 : (ℕ → ℕ) → ℕ → ℕ → ℕ → ℕ
put4 f o src =
    update (update (update (update f o (blue src)) (o + 1) (green src)) (o + 2) (red src)) (o + 3)
      0xFF

put4_same :
    (f : ℕ → ℕ) (o a b c d : ℕ)
    → four (update (update (update (update f o a) (o + 1) b) (o + 2) c) (o + 3) d) o
      ≡ a ∷ b ∷ c ∷ d ∷ []
put4_same f o a b c d = ground arith

put4_other :
    (f : ℕ → ℕ) (i j a b c d : ℕ)
    → (j < i) ⊎ (i + 3 < j)
    → update (update (update (update f i a) (i + 1) b) (i + 2) c) (i + 3) d j ≡ f j
put4_other f i j a b c d h = ground arith

four_other :
    (f : ℕ → ℕ) (i o a b c d : ℕ)
    → (o + 3 < i) ⊎ (i + 3 < o)
    → four (update (update (update (update f i a) (i + 1) b) (i + 2) c) (i + 3) d) o ≡ four f o
four_other f i o a b c d h =
    rw
      (
        put4_other f i o a b c d (ground arith),
        put4_other f i (o + 1) a b c d (ground arith),
        put4_other f i (o + 2) a b c d (ground arith),
        put4_other f i (o + 3) a b c d (ground arith),
      )
      refl

-- A copy that returns: the pixels of the area show the source, the others are as before.
pub record Copied (area : ℕ → ℕ → Bool) (source b : Buffer) (r : Result Panic (Unit {0}) × Buffer)
    : Type 0 where
  pub out : Buffer
  pub returns : r ≡ (ok tt, out)
  pub len : out.len ≡ b.len
  pub pixels :
      (x y : ℕ)
      → x < screen_width
      → y < screen_height
      → window_at out x y
        ≡ (if area x y then bgra (source.item (y * screen_width + x)) else window_at b x y)

-- The columns and rows that a rectangle has on the screen.
abbrev pub in_rect : DirtyRect → ℕ → ℕ → Bool
in_rect rect =
    in_area (pos_part rect.x) (clamp screen_width (add_i32 rect.x (pos rect.w))) (pos_part rect.y)
      (clamp screen_height (add_i32 rect.y (pos rect.h)))

module _ (source : Buffer) (room : screen_width * screen_height ≤ source.len) where
  copy_pixel-Copied :
      (xx yy : ℕ) (b : Buffer)
      → HasRoom b
      → xx < screen_width
      → yy < screen_height
      → Copied
          (λ x y. (x == xx) && (y == yy))
          source
          b
          (copy_pixel source (yy * screen_width + xx) b)
  unfolding copy_pixel read_source write_dest
  copy_pixel-Copied xx yy b hb hx hy =
      let index = yy * screen_width + xx in
      let src = source.item index in
      record {
        out = record b { item = put4 b.item (index * 4) src };
        returns =
            rw
              (
                lt→ltb index source.len (omega arith),
                lt→ltb (index * 4) b.len (omega arith),
                lt→ltb (index * 4 + 1) b.len (omega arith),
                lt→ltb (index * 4 + 2) b.len (omega arith),
                lt→ltb (index * 4 + 3) b.len (omega arith),
              )
              refl;
        len = refl;
        pixels = λ x y px py. elim (Bool-cases ((x == xx) && (y == yy))) [
          | inl p ↦
              let ex : x ≡ xx = ground arith in
              let ey : y ≡ yy = ground arith in
              rw (p, ex, ey) (put4_same b.item (index * 4) (blue src) (green src) (red src) 0xFF)
          | inr p ↦
              let o = y * screen_width + x in
              rw p (
                four_other b.item (index * 4) (o * 4) (blue src) (green src) (red src) 0xFF
                  (ground arith))
        ];
      }

  row-Copied :
      (yy x0 n : ℕ) (b : Buffer)
      → HasRoom b
      → yy < screen_height
      → x0 + n ≤ screen_width
      → Copied
          (λ x y. leb x0 x && ltb x (x0 + n) && (y == yy))
          source
          b
          (for_range x0 n (λ x. copy_pixel source (yy * screen_width + x)) b)
  row-Copied yy x0 zero b hb hy hx = record {
    out = b;
    returns = refl;
    len = refl;
    pixels = λ x y px py. ground arith;
  }
  row-Copied yy x0 (suc n) b hb hy hx =
      let first = copy_pixel-Copied x0 yy b hb (omega arith) hy in
      let rest = row-Copied yy (suc x0) n first.out (omega (arith, first.len)) hy (omega arith) in
      record {
        out = rest.out;
        returns = rw first.returns rest.returns;
        len = rest.len ∙ first.len;
        pixels = λ x y px py. ground (arith, first.pixels x y px py, rest.pixels x y px py);
      }

  rows-Copied :
      (x0 cols y0 n : ℕ) (b : Buffer)
      → HasRoom b
      → y0 + n ≤ screen_height
      → x0 + cols ≤ screen_width
      → Copied
          (λ x y. leb x0 x && ltb x (x0 + cols) && leb y0 y && ltb y (y0 + n))
          source
          b
          (for_range y0 n
            (λ y. for_range x0 cols (λ x. copy_pixel source (y * screen_width + x)))
            b)
  rows-Copied x0 cols y0 zero b hb hy hx = record {
    out = b;
    returns = refl;
    len = refl;
    pixels = λ x y px py. ground arith;
  }
  rows-Copied x0 cols y0 (suc n) b hb hy hx =
      let row = row-Copied y0 x0 cols b hb (omega arith) hx in
      let rest = rows-Copied x0 cols (suc y0) n row.out (omega (arith, row.len)) (omega arith) hx in
      record {
        out = rest.out;
        returns = rw row.returns rest.returns;
        len = rest.len ∙ row.len;
        pixels = λ x y px py. ground (arith, row.pixels x y px py, rest.pixels x y px py);
      }

  area-Copied :
      (x0 x1 y0 y1 : ℕ) (b : Buffer)
      → HasRoom b
      → x1 ≤ screen_width
      → y1 ≤ screen_height
      → Copied (in_area x0 x1 y0 y1) source b (
          (if leb x1 x0 || leb y1 y0
              then pure tt
              else for_range y0
                  (y1 - y0)
                  (λ y. for_range x0 (x1 - x0) (λ x. copy_pixel source (y * screen_width + x))))
            b)
  area-Copied x0 x1 y0 y1 b hb hx hy = elim (Bool-cases (leb x1 x0 || leb y1 y0)) [
    | inl p ↦ record {
      out = b;
      returns = rw p refl;
      len = refl;
      pixels = λ x y px py. rw (no_area x0 x1 y0 y1 x y p) refl;
    }
    | inr p ↦
        let all = rows-Copied x0 (x1 - x0) y0 (y1 - y0) b hb (ground arith) (ground arith) in
        record {
          out = all.out;
          returns = rw p all.returns;
          len = all.len;
          pixels = λ x y px py. rw (sym (same_area x0 x1 y0 y1 x y p)) (all.pixels x y px py);
        }
  ]

  -- For any rectangle, on the screen or not, the copy from a source with the size of the screen to a
  -- window with room for it never panics; the pixels of the rectangle that are on the screen then have
  -- their colors in the window, and the others are as they were.
  pub copy_rgb565_region_to_bgra-Copied :
      (rect : DirtyRect) (b : Buffer)
      → HasRoom b
      → Copied
          (in_rect rect)
          source
          b
          (copy_rgb565_region_to_bgra source screen_width screen_height rect b)
  unfolding copy_rgb565_region_to_bgra
  copy_rgb565_region_to_bgra-Copied rect b hb =
      area-Copied (pos_part rect.x) (clamp screen_width (add_i32 rect.x (pos rect.w)))
        (pos_part rect.y) (clamp screen_height (add_i32 rect.y (pos rect.h))) b hb (omega arith)
        (omega arith)
