-- ===== src/Screen.antt =====
-- crates/vmrp-platform/src/lib.rs: the screen of the host, a buffer of RGB565 pixels with the region
-- that changed since the window last took it, and the functions that draw on it. An i32 is an integer
-- here, and a sum that leaves its range wraps around, as in a build without overflow checks.
pub mod Draws
pub mod Region
pub mod Fill
pub mod Tracks
pub mod Bitmaps
pub mod Replaced
pub mod Text
pub mod Handlers
pub mod Present
mod Tests
use vmrp_rust.Prelude.{
  ℕ, zero, suc, ◌+◌, ◌-◌, ◌*◌, ◌%◌, ◌^◌, min, Bool, false, ◌||◌, Option, none, some, ltb, leb, ◌==◌,
  ◌!=◌, if◌then◌else◌,
}
use vmrp_rust.Prelude.Int.{
  ℤ, pos, pos_part, ltb_ℤ, leb_ℤ, min_ℤ, max_ℤ, wrap_i32, add_i32, saturating_add_i32, as_u16,
  as_i32, ◌-ℤ◌,
}
use vmrp_rust.Prelude.Result.{Result, ok, err}
use vmrp_rust.Prelude.State.{Stateful, pure, modify, gets, for_range, ◌>>=◌, ◌>>◌}
use vmrp_rust.Word.{add32, mul32}
use vmrp_rust.Cpu.Memory.{MemoryAccessError, MemoryBus, update}

abbrev pub screen_width : ℕ
screen_width = 240

abbrev pub screen_height : ℕ
screen_height = 320

pub record HostScreenRegion : Type 0 where
  pub x : ℤ
  pub y : ℤ
  pub w : ℕ
  pub h : ℕ

-- `screen_buffer i` counts for `i < screen_width * screen_height` only.
pub record Screen : Type 0 where
  pub screen_buffer : ℕ → ℕ
  pub dirty_region : Option HostScreenRegion

-- A read of the guest's memory that fails, and an index out of range.
pub data DrawError : Type 0 where
  unreadable : MemoryAccessError → DrawError
  panicked : DrawError

abbrev pub Draw : Type 0 → Type 0
Draw A = Stateful Screen DrawError A

-- `self.screen_buffer[index] = color`.
unfoldable pub write_pixel : ℕ → ℕ → Draw (Unit {0})
write_pixel index color s =
    if ltb index (screen_width * screen_height)
    then (ok tt, record s { screen_buffer = update s.screen_buffer index color })
    else (err panicked, s)

-- `z.max(0).min(high)`.
abbrev pub clamp : ℕ → ℤ → ℕ
clamp high z = min (pos_part z) high

-- The union of two ranges, as a start and a length of u16.
unfoldable pub join : ℤ → ℕ → ℤ → ℕ → ℤ × ℕ
join x w nx nw =
    let left = min_ℤ x nx in
    let right = max_ℤ (add_i32 x (pos w)) (add_i32 nx (pos nw)) in
    (left, as_u16 (wrap_i32 (right -ℤ left)))

unfoldable pub merged : HostScreenRegion → Option HostScreenRegion → HostScreenRegion
unfolding join
merged next none = next
merged next (some current) =
    let (left, w) = join current.x current.w next.x next.w in
    let (top, h) = join current.y current.h next.y next.h in
    record { x = left; y = top; w = w; h = h }

unfoldable pub mark_dirty_region : ℤ → ℤ → ℕ → ℕ → Screen → Screen
unfolding merged
mark_dirty_region x y w h s =
    let x0 = clamp screen_width x in
    let y0 = clamp screen_height y in
    let x1 = clamp screen_width (saturating_add_i32 x (pos w)) in
    let y1 = clamp screen_height (saturating_add_i32 y (pos h)) in
    if leb x1 x0 || leb y1 y0 then s else record s {
      dirty_region =
          some
            (merged (record { x = pos x0; y = pos y0; w = x1 - x0; h = y1 - y0 }) s.dirty_region);
    }

unfoldable pub take_dirty_region : Screen → Option HostScreenRegion × Screen
take_dirty_region s = (s.dirty_region, record s { dirty_region = none })

abbrev pub off_screen : ℤ → ℤ → Bool
off_screen x y =
    ltb_ℤ x (pos 0) || ltb_ℤ y (pos 0) || leb_ℤ (pos screen_width) x || leb_ℤ (pos screen_height) y

abbrev pub pixel_index : ℤ → ℤ → ℕ
pixel_index x y = pos_part y * screen_width + pos_part x

unfoldable pub plot_screen_pixel : ℤ → ℤ → ℕ → Draw (Unit {0})
unfolding write_pixel mark_dirty_region
plot_screen_pixel x y color =
    if off_screen x y
    then pure tt
    else (write_pixel (pixel_index x y) color >> modify (mark_dirty_region x y 1 1))

-- An end of a range that is negative counts as 0: the range is empty either way.
unfoldable pub fill_screen_rect : ℤ → ℤ → ℤ → ℤ → ℕ → Draw (Unit {0})
unfolding write_pixel mark_dirty_region
fill_screen_rect x y w h color =
    let x0 = pos_part x in
    let y0 = pos_part y in
    let x1 = clamp screen_width (add_i32 x w) in
    let y1 = clamp screen_height (add_i32 y h) in
    if leb x1 x0 || leb y1 y0
    then pure tt
    else (for_range y0 (y1 - y0)
          (λ yy. for_range x0 (x1 - x0) (λ xx. write_pixel (yy * screen_width + xx) color))
        >> modify (mark_dirty_region (pos x0) (pos y0) (x1 - x0) (y1 - y0)))

pub record GuestBitmapDraw : Type 0 where
  pub p : ℕ
  pub w : ℕ
  pub h : ℕ
  pub x : ℤ
  pub y : ℤ

-- `color == pixel` for a transparent color, if there is one.
abbrev pub is_transparent : Option ℕ → ℕ → Bool
is_transparent none pixel = false
is_transparent (some color) pixel = color == pixel

-- `?` on an access to the guest's memory.
abbrev pub of_read : {A : Type 0} → Result MemoryAccessError A → Draw A
of_read (ok a) s = (ok a, s)
of_read (err e) s = (err (unreadable e), s)

module _ {M : Type 0} ⦃bus : MemoryBus M⦄ where
  -- `memory.read16(GuestAddr::new(bmp_ptr.wrapping_add(src_index.wrapping_mul(2))))?`.
  abbrev pub read_pixel : M → ℕ → ℕ → Draw ℕ
  read_pixel memory bmp_ptr src_index =
      of_read (bus.read16 memory (add32 bmp_ptr (mul32 src_index 2)))

  -- The pixel of a source at (sx, sy), at (dx, dy) of the screen.
  unfoldable pub blit_pixel : M → GuestBitmapDraw → Option ℕ → ℤ → ℤ → ℤ → ℤ → Draw (Unit {0})
  unfolding write_pixel
  blit_pixel memory src transparent sx sy dx dy =
      if ltb_ℤ sx (pos 0) || leb_ℤ (pos src.w) sx || ltb_ℤ dx (pos 0) || leb_ℤ (pos screen_width) dx
      then pure tt
      else do
        pixel ← read_pixel memory src.p (add32 (mul32 (pos_part sy) src.w) (pos_part sx))
        if is_transparent transparent pixel then pure tt else write_pixel (pixel_index dx dy) pixel

  unfoldable pub blit_row :
      M → GuestBitmapDraw → GuestBitmapDraw → ℕ → Option ℕ → ℕ → Draw (Unit {0})
  unfolding blit_pixel
  blit_row memory src dst w transparent j =
      let sy = add_i32 src.y (pos j) in
      let dy = add_i32 dst.y (pos j) in
      if ltb_ℤ sy (pos 0)
        || leb_ℤ (pos src.h) sy
        || ltb_ℤ dy (pos 0)
        || leb_ℤ (pos screen_height) dy
      then pure tt
      else for_range 0 w (λ i.
        blit_pixel memory src transparent (add_i32 src.x (pos i)) sy (add_i32 dst.x (pos i)) dy)

  unfoldable pub blit_guest_bitmap :
      M → GuestBitmapDraw → GuestBitmapDraw → ℕ → ℕ → Option ℕ → Draw (Unit {0})
  unfolding blit_row mark_dirty_region
  blit_guest_bitmap memory src dst w h transparent = do
    for_range 0 h (blit_row memory src dst w transparent)
    modify (mark_dirty_region dst.x dst.y w h)

  -- One pixel of a bitmap without a header, at (xx, yy) of the screen.
  unfoldable pub raw_pixel : M → ℕ → ℤ → ℤ → ℕ → Draw (Unit {0})
  unfolding write_pixel
  raw_pixel memory bmp_ptr xx yy src_index =
      if off_screen xx yy
      then pure tt
      else (read_pixel memory bmp_ptr src_index >>= write_pixel (pixel_index xx yy))

  -- The rows and columns of such a bitmap, with the wrapped index of a pixel.
  unfoldable pub raw_pixels : M → ℕ → ℤ → ℤ → ℕ → ℕ → Draw (Unit {0})
  unfolding raw_pixel
  raw_pixels memory bmp_ptr x y w h = for_range 0 h (λ j. for_range 0 w (λ i.
      raw_pixel memory bmp_ptr (add_i32 x (as_i32 i)) (add_i32 y (as_i32 j)) (add32 i (mul32 j w))))

  unfoldable pub blit_raw_rgb565_bitmap : M → ℕ → ℤ → ℤ → ℕ → ℕ → Draw (Unit {0})
  unfolding raw_pixels mark_dirty_region
  blit_raw_rgb565_bitmap memory bmp_ptr x y w h = do
    raw_pixels memory bmp_ptr x y w h
    modify (mark_dirty_region x y w h)

  -- The arm DrawBitmap of `handle_dsm_callback`: the size is not limited to u16, and the region
  -- takes the place of the one before.
  unfoldable pub draw_bitmap : M → ℕ → ℤ → ℤ → ℕ → ℕ → Draw (Unit {0})
  unfolding raw_pixels
  draw_bitmap memory bmp_ptr x y w h = do
    raw_pixels memory bmp_ptr x y w h
    modify (λ s. record s {
      dirty_region = some (record { x = x; y = y; w = w % 2 ^ 16; h = h % 2 ^ 16 });
    })

  -- One more for a pixel of the screen that is not of the color, under a pixel that is not transparent.
  unfoldable pub count_pixel : M → ℕ → ℕ → ℕ → ℤ → ℤ → ℕ → ℕ → Draw ℕ
  count_pixel memory bmp_ptr transparent color_check xx yy src_index count =
      if off_screen xx yy then pure count else do
        pixel ← read_pixel memory bmp_ptr src_index
        shown ← gets (λ s. s.screen_buffer (pixel_index xx yy))
        if pixel == transparent
            then pure count
            else if shown != color_check
            then pure (count + 1)
            else pure count

  unfoldable pub count_columns : M → ℕ → ℤ → ℤ → ℕ → ℕ → ℕ → ℕ → ℕ → ℕ → ℕ → Draw ℕ
  unfolding count_pixel
  count_columns memory bmp_ptr x y w transparent color_check j i zero count = pure count
  count_columns memory bmp_ptr x y w transparent color_check j i (suc left) count = do
    next ←
        count_pixel memory bmp_ptr transparent color_check (add_i32 x (pos i)) (add_i32 y (pos j))
          (i + j * w) count
    count_columns memory bmp_ptr x y w transparent color_check j (suc i) left next

  unfoldable pub count_rows : M → ℕ → ℤ → ℤ → ℕ → ℕ → ℕ → ℕ → ℕ → ℕ → Draw ℕ
  unfolding count_columns
  count_rows memory bmp_ptr x y w transparent color_check j zero count = pure count
  count_rows memory bmp_ptr x y w transparent color_check j (suc left) count = do
    next ← count_columns memory bmp_ptr x y w transparent color_check j 0 w count
    count_rows memory bmp_ptr x y w transparent color_check (suc j) left next

  unfoldable pub count_non_matching_bitmap_pixels : M → ℕ → ℤ → ℤ → ℕ → ℕ → ℕ → ℕ → Draw ℕ
  unfolding count_rows
  count_non_matching_bitmap_pixels memory bmp_ptr x y w h transparent color_check =
      count_rows memory bmp_ptr x y w transparent color_check 0 h 0
