-- ===== src/Screen/Present/Runs.antt =====
-- Runs of the drawing calls of crates/vmrp-platform/src/lib.rs and of presentations in the window of
-- apps/vmrp-windows: the window shows the screen.
use vmrp_rust.Prelude.{ℕ, ◌*◌, ◌≤◌, ◌<◌, ◌^◌, ◌≡◌, Bool, refl, ap, inl, Option, none, List, length}
use vmrp_rust.Prelude.Int.{ℤ}
use vmrp_rust.Prelude.Result.{Result, ok}
use vmrp_rust.Prelude.State.{pure, ◌>>=◌, and_then}
use vmrp_rust.Abi.{Bytes}
use vmrp_rust.Cpu.Memory.{MemoryBus}
use vmrp_rust.Screen.{
  Screen, Draw, DrawError, GuestBitmapDraw, screen_width, screen_height, plot_screen_pixel,
  fill_screen_rect, blit_guest_bitmap, blit_raw_rgb565_bitmap,
}
use vmrp_rust.Screen.Draws.{at}
use vmrp_rust.Screen.Region.{InScreen, clean}
use vmrp_rust.Screen.Tracks.{
  IsI32, Tracks, Tracked, tracked, not_read, plot_screen_pixel-Tracked, fill_screen_rect-Tracked,
}
use vmrp_rust.Screen.Bitmaps.{blit_guest_bitmap-Tracked, blit_raw_rgb565_bitmap-Tracked}
use vmrp_rust.Screen.Text.{draw_text}
use vmrp_rust.Screen.Text.Line.{draw_text-Tracked}
use vmrp_rust.Screen.Text.Clipped.{Clip}
use vmrp_rust.Screen.Handlers.TextEx.{draw_text_ex, draw_text_ex-Tracked}
use vmrp_rust.Screen.Present.{Buffer, present_dirty}
use vmrp_rust.Screen.Present.Copied.{HasRoom}
use vmrp_rust.Screen.Present.Frames.{Shows, Presented, presented, present_dirty-Presented}

-- The drawing functions, but for the one of the DrawBitmap service of handle_dsm_callback.
pub data Drawing (M : Type 0) : Type 0 where
  plot : ℤ → ℤ → ℕ → Drawing M
  fill : ℤ → ℤ → ℤ → ℤ → ℕ → Drawing M
  bitmap : M → GuestBitmapDraw → GuestBitmapDraw → ℕ → ℕ → Option ℕ → Drawing M
  raw_bitmap : M → ℕ → ℤ → ℤ → ℕ → ℕ → Drawing M
  text : Bytes → List ℕ → ℤ → ℤ → ℕ → Drawing M
  clipped_text : Bytes → Bool → Clip → ℕ → List ℕ → Drawing M

-- Arguments of i32 and of u16 where the handlers give such, and as much text as they read.
abbrev pub IsDrawing : {M : Type 0} → Drawing M → Type 0
IsDrawing (plot x y color) = Unit {0}
IsDrawing (fill x y w h color) = Unit {0}
IsDrawing (bitmap memory src dst w h transparent) =
    IsI32 dst.x × IsI32 dst.y × (w < 2 ^ 16) × (h < 2 ^ 16)
IsDrawing (raw_bitmap memory bmp_ptr x y w h) = IsI32 x × IsI32 y × (w < 2 ^ 16) × (h < 2 ^ 16)
IsDrawing (text font chars x y color) = IsI32 x × IsI32 y × (length chars ≤ 1024)
IsDrawing (clipped_text font auto_newline clip color chars) = IsI32 clip.left × IsI32 clip.top

module _ {M : Type 0} ⦃bus : MemoryBus M⦄ where
  unfoldable pub draw : Drawing M → Draw (Unit {0})
  unfolding plot_screen_pixel fill_screen_rect blit_guest_bitmap blit_raw_rgb565_bitmap draw_text
      draw_text_ex
  draw (plot x y color) = plot_screen_pixel x y color
  draw (fill x y w h color) = fill_screen_rect x y w h color
  draw (bitmap memory src dst w h transparent) = blit_guest_bitmap memory src dst w h transparent
  draw (raw_bitmap memory bmp_ptr x y w h) = blit_raw_rgb565_bitmap memory bmp_ptr x y w h
  draw (text font chars x y color) = draw_text font chars x y color
  draw (clipped_text font auto_newline clip color chars) =
      draw_text_ex font auto_newline clip color chars >>= λ _. pure tt

  -- Each of these calls, on a screen whose dirty region lies in it and covers every pixel that the
  -- window does not show, never panics; it leaves such a screen, or fails on a read of the guest's
  -- memory with a region within the screen.
  pub draw-Tracked :
      (d : Drawing M) (shown : ℕ → ℕ → ℕ) (s : Screen)
      → IsDrawing d
      → InScreen s.dirty_region
      → Tracks shown s
      → Tracked shown (draw d s)
  unfolding draw
  draw-Tracked (plot x y color) shown s v i track =
      plot_screen_pixel-Tracked shown s i track x y color
  draw-Tracked (fill x y w h color) shown s v i track =
      fill_screen_rect-Tracked shown s i track x y w h color
  draw-Tracked (bitmap memory src dst w h transparent) shown s (vx, vy, hw, hh) i track =
      blit_guest_bitmap-Tracked memory shown s i track src dst w h transparent vx vy hw hh
  draw-Tracked (raw_bitmap memory bmp_ptr x y w h) shown s (vx, vy, hw, hh) i track =
      blit_raw_rgb565_bitmap-Tracked memory shown s i track bmp_ptr x y w h vx vy hw hh
  draw-Tracked (text font chars x y color) shown s (vx, vy, hl) i track =
      draw_text-Tracked x y vx vy shown s i track font chars color hl
  draw-Tracked (clipped_text font auto_newline clip color chars) shown s (vx, vy) i track =
      without_answer (draw_text_ex font auto_newline clip color chars s)
        (draw_text_ex-Tracked font auto_newline clip color chars shown s vx vy i track)
    where
      without_answer :
          (r : Result DrawError ℕ × Screen)
          → Tracked shown r
          → Tracked {A = Unit {0}} shown (and_then r (λ _. pure tt))
      without_answer _ (tracked i t) = tracked i t
      without_answer _ (not_read i) = not_read i

-- The black screen and a window of zeros, drawing calls that answer, and presentations that return.
pub data Reached (M : Type 0) ⦃bus : MemoryBus M⦄ : Screen → Buffer → Type 0 where
  start :
      (len : ℕ)
      → screen_width * screen_height * 4 ≤ len
      → Reached M
          (record { screen_buffer = λ _. 0; dirty_region = none })
          (record { len = len; item = λ _. 0 })
  drew :
      {s : Screen} {b : Buffer} (d : Drawing M) (t : Screen)
      → IsDrawing d
      → Reached M s b
      → draw d s ≡ (ok tt, t)
      → Reached M t b
  showed :
      {s : Screen} {b : Buffer} (t : Screen) (c : Buffer)
      → Reached M s b
      → present_dirty s b ≡ ((ok tt, c), t)
      → Reached M t c

-- The window shows what the screen's dirty region is about.
data Follows (s : Screen) (b : Buffer) : Type 0 where
  follows :
      (shown : ℕ → ℕ → ℕ)
      → HasRoom b
      → Shows b shown
      → InScreen s.dirty_region
      → Tracks shown s
      → Follows s b

after_draw :
    {shown : ℕ → ℕ → ℕ} {b : Buffer} {t : Screen}
    → HasRoom b
    → Shows b shown
    → Tracked {A = Unit {0}} shown (ok tt, t)
    → Follows t b
after_draw {shown} room shows (tracked i track) = follows shown room shows i track

after_present : {s t : Screen} {b c : Buffer} → Presented s b ((ok tt, c), t) → Follows t c
after_present {s} (presented shows room e) =
    follows (at s) room shows (coe 1 0 (k. InScreen ((e k).dirty_region)) clean)
      (λ x y hx hy. inl (ap (λ u. at u x y) e))

module _ {M : Type 0} ⦃bus : MemoryBus M⦄ where
  Reached-Follows : {s : Screen} {b : Buffer} → Reached M s b → Follows s b
  Reached-Follows (start len room) =
      follows (λ x y. 0) room (λ x y hx hy. refl) clean (λ x y hx hy. inl refl)
  Reached-Follows (drew {s} {b} d t v r e) = elim (Reached-Follows r) [
    | follows shown room shows i track ↦
        after_draw room shows (coe 0 1 (k. Tracked shown (e k)) (draw-Tracked d shown s v i track))
  ]
  Reached-Follows (showed {s} {b} t c r e) = elim (Reached-Follows r) [
    | follows shown room shows i track ↦
        after_present
          (coe 0 1 (k. Presented s b (e k)) (present_dirty-Presented s b shown room shows i track))
  ]

  -- After any run of presentations and of calls, each of which answered, of the drawing functions other
  -- than the one of DrawBitmap, from the black screen and a window of zeros with room for it, a
  -- presentation returns without a panic, nothing is dirty any more, and each pixel of the window has
  -- the color of its pixel of the screen. Neither DrawBitmap nor a call that failed on a read of the
  -- guest's memory is in such a run.
  pub Reached-Presented :
      (s : Screen) (b : Buffer) → Reached M s b → Presented s b (present_dirty s b)
  Reached-Presented s b r = elim (Reached-Follows r) [
    | follows shown room shows i track ↦ present_dirty-Presented s b shown room shows i track
  ]
