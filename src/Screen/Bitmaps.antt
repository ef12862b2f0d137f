-- ===== src/Screen/Bitmaps.antt =====
-- The bitmaps of crates/vmrp-platform/src/lib.rs and the dirty region.
use vmrp_rust.Prelude.{ℕ, ◌≤◌, ◌<◌, ◌^◌, ◌≡◌, refl, false, Option, arith, ◌||◌}
use vmrp_rust.Prelude.Int.{ℤ, pos, pos_part, neg_part, ltb_ℤ, leb_ℤ, add_i32, as_i32}
use vmrp_rust.Prelude.State.{pure, for_range}
use vmrp_rust.Word.{add32, mul32}
use vmrp_rust.Cpu.Memory.{MemoryBus}
use vmrp_rust.Screen.{
  Screen, GuestBitmapDraw, screen_width, screen_height, off_screen, is_transparent, read_pixel,
  blit_pixel, blit_row, blit_guest_bitmap, raw_pixel, raw_pixels, blit_raw_rgb565_bitmap,
}
use vmrp_rust.Screen.Draws.{
  Draws, bind-Draws, pure-Draws, of_read-Draws, for_range-Draws, if-Draws, write_pixel-Draws,
}
use vmrp_rust.Screen.Region.{InScreen}
use vmrp_rust.Screen.Tracks.{IsI32, InRect, Tracks, Tracked, on_screen, span, mark-Tracked}

as_i32-small : (i : ℕ) → i < 2 ^ 16 → as_i32 i ≡ pos i
as_i32-small i h = ground arith

module _ {M : Type 0} ⦃bus : MemoryBus M⦄ (memory : M) where
  blit_pixel-Draws :
      (src : GuestBitmapDraw) (transparent : Option ℕ) (R : ℕ → ℕ → Type 0) (sx sy dx dy : ℤ)
      → neg_part dy ≡ 0
      → pos_part dy < screen_height
      → (neg_part dx ≡ 0 → pos_part dx < screen_width → R (pos_part dx) (pos_part dy))
      → Draws R (blit_pixel memory src transparent sx sy dx dy)
  unfolding blit_pixel
  blit_pixel-Draws src transparent R sx sy dx dy ny ly r =
      if-Draws _ (pure tt) _ (λ _. pure-Draws tt)
        (λ p.
          let (nx, lx) = in_row dx sx src.w p in
          bind-Draws (read_pixel memory src.p (add32 (mul32 (pos_part sy) src.w) (pos_part sx))) _
            (of_read-Draws _)
            (λ pixel.
              if-Draws (is_transparent transparent pixel) (pure tt) _ (λ _. pure-Draws tt)
                (λ _. write_pixel-Draws (pos_part dx) (pos_part dy) pixel lx ly (r nx lx))))
    where
      in_row :
          (d z : ℤ) (n : ℕ)
          → (ltb_ℤ z (pos 0) || leb_ℤ (pos n) z || ltb_ℤ d (pos 0) || leb_ℤ (pos screen_width) d)
            ≡ false
          → (neg_part d ≡ 0) × (pos_part d < screen_width)
      in_row d z n h = ground arith

  blit_row-Draws :
      (src dst : GuestBitmapDraw) (w h : ℕ) (transparent : Option ℕ) (j : ℕ)
      → IsI32 dst.x
      → IsI32 dst.y
      → w ≤ 2 ^ 16
      → h ≤ 2 ^ 16
      → j < h
      → Draws (InRect dst.x dst.y w h) (blit_row memory src dst w transparent j)
  unfolding blit_row
  blit_row-Draws src dst w h transparent j vx vy hw hh hj =
      if-Draws _ (pure tt) _ (λ _. pure-Draws tt)
        (λ p.
          let dy = add_i32 dst.y (pos j) in
          let (ny, ly) = in_rows dy (add_i32 src.y (pos j)) src.h p in
          for_range-Draws 0 w _ (λ i a b.
            let dx = add_i32 dst.x (pos i) in
            blit_pixel-Draws src transparent (InRect dst.x dst.y w h) (add_i32 src.x (pos i))
              (add_i32 src.y (pos j)) dx dy ny ly
              (λ nx lx. (
                span dst.x i w (pos_part dx) vx (omega arith) hw nx refl (omega arith),
                span dst.y j h (pos_part dy) vy hj hh ny refl (omega arith),
              ))))
    where
      in_rows :
          (d z : ℤ) (n : ℕ)
          → (ltb_ℤ z (pos 0) || leb_ℤ (pos n) z || ltb_ℤ d (pos 0) || leb_ℤ (pos screen_height) d)
            ≡ false
          → (neg_part d ≡ 0) × (pos_part d < screen_height)
      in_rows d z n h = ground arith

  pub raw_pixels-Draws :
      (bmp_ptr : ℕ) (x y : ℤ) (w h : ℕ)
      → IsI32 x
      → IsI32 y
      → w ≤ 2 ^ 16
      → h ≤ 2 ^ 16
      → Draws (InRect x y w h) (raw_pixels memory bmp_ptr x y w h)
  unfolding raw_pixels raw_pixel
  raw_pixels-Draws bmp_ptr x y w h vx vy hw hh = for_range-Draws 0 h _ (λ j a b.
      for_range-Draws 0 w _ (λ i c d.
        rw (as_i32-small i (omega arith), as_i32-small j (omega arith))
          (let xx = add_i32 x (pos i) in
            let yy = add_i32 y (pos j) in
            if-Draws (off_screen xx yy) (pure tt) _ (λ _. pure-Draws tt)
              (λ p.
                let (nx, lx, ny, ly) = on_screen xx yy p in
                bind-Draws (read_pixel memory bmp_ptr (add32 i (mul32 j w))) _ (of_read-Draws _)
                  (λ pixel. write_pixel-Draws (pos_part xx) (pos_part yy) pixel lx ly (
                    span x i w (pos_part xx) vx (omega arith) hw nx refl (omega arith),
                    span y j h (pos_part yy) vy (omega arith) hh ny refl (omega arith),
                  ))))))

  module _ (shown : ℕ → ℕ → ℕ) (s : Screen) (i : InScreen s.dirty_region)
      (track : Tracks shown s) where
    pub blit_guest_bitmap-Tracked :
        (src dst : GuestBitmapDraw) (w h : ℕ) (transparent : Option ℕ)
        → IsI32 dst.x
        → IsI32 dst.y
        → w < 2 ^ 16
        → h < 2 ^ 16
        → Tracked shown (blit_guest_bitmap memory src dst w h transparent s)
    unfolding blit_guest_bitmap
    blit_guest_bitmap-Tracked src dst w h transparent vx vy hw hh =
        mark-Tracked dst.x dst.y w h (for_range 0 h (blit_row memory src dst w transparent)) s
          (for_range-Draws 0 h _ (λ j a b.
            blit_row-Draws src dst w h transparent j vx vy (omega arith) (omega arith)
              (omega arith)))
          i track

    pub blit_raw_rgb565_bitmap-Tracked :
        (bmp_ptr : ℕ) (x y : ℤ) (w h : ℕ)
        → IsI32 x
        → IsI32 y
        → w < 2 ^ 16
        → h < 2 ^ 16
        → Tracked shown (blit_raw_rgb565_bitmap memory bmp_ptr x y w h s)
    unfolding blit_raw_rgb565_bitmap
    blit_raw_rgb565_bitmap-Tracked bmp_ptr x y w h vx vy hw hh =
        mark-Tracked x y w h (raw_pixels memory bmp_ptr x y w h) s
          (raw_pixels-Draws bmp_ptr x y w h vx vy (omega arith) (omega arith)) i track
