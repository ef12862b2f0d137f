-- ===== src/Screen/Replaced.antt =====
-- What the arm DrawBitmap of `handle_dsm_callback` (crates/vmrp-platform/src/lib.rs) leaves.
use vmrp_rust.Prelude.{ℕ, ◌<◌, ◌^◌, ◌≡◌, refl, ◌⊎◌, some, arith, ◌%◌}
use vmrp_rust.Prelude.Int.{ℤ}
use vmrp_rust.Prelude.Result.{Result, ok, err}
use vmrp_rust.Prelude.State.{and_then, modify}
use vmrp_rust.Cpu.Memory.{MemoryAccessError, MemoryBus}
use vmrp_rust.Screen.{
  Screen, DrawError, HostScreenRegion, unreadable, screen_width, screen_height, raw_pixels,
  draw_bitmap,
}
use vmrp_rust.Screen.Draws.{at, Leaves, Drawn, drawn, failed}
use vmrp_rust.Screen.Tracks.{IsI32, InRect}
use vmrp_rust.Screen.Bitmaps.{raw_pixels-Draws}

abbrev rectangle : ℤ → ℤ → ℕ → ℕ → HostScreenRegion
rectangle x y w h = record { x = x; y = y; w = w; h = h }

-- The pixels that change are in a rectangle. After an answer exactly that rectangle is dirty.
pub data Replaced (x y : ℤ) (w h : ℕ) (s : Screen)
    : Result DrawError (Unit {0}) × Screen → Type 0 where
  replaced :
      {t : Screen}
      → t.dirty_region ≡ some (rectangle x y w h)
      → ((px py : ℕ)
          → px < screen_width
          → py < screen_height
          → (at t px py ≡ at s px py) ⊎ InRect x y w h px py)
      → Replaced x y w h s (ok tt, t)
  stopped :
      {e : MemoryAccessError} {t : Screen}
      → Leaves (InRect x y w h) s t
      → Replaced x y w h s (err (unreadable e), t)

module _ {M : Type 0} ⦃bus : MemoryBus M⦄ (memory : M) where
  -- DrawBitmap at any place, with a width and a height of u16, changes pixels of its rectangle only and
  -- never panics. When it answers, the dirty region is that rectangle, not clipped to the screen, and
  -- nothing of what was dirty before: pixels that were drawn before and not presented stay unpresented.
  pub draw_bitmap-Replaced :
      (bmp_ptr : ℕ) (x y : ℤ) (w h : ℕ) (s : Screen)
      → IsI32 x
      → IsI32 y
      → w < 2 ^ 16
      → h < 2 ^ 16
      → Replaced x y w h s (draw_bitmap memory bmp_ptr x y w h s)
  unfolding draw_bitmap
  draw_bitmap-Replaced bmp_ptr x y w h s vx vy hw hh =
      cases (raw_pixels memory bmp_ptr x y w h s)
        (raw_pixels-Draws memory bmp_ptr x y w h vx vy (omega arith) (omega arith) s)
    where
      same : {n : ℕ} → n < 2 ^ 16 → n % 2 ^ 16 ≡ n
      same h = omega arith

      cases :
          (r : Result DrawError (Unit {0}) × Screen)
          → Drawn (InRect x y w h) s r
          → Replaced x y w h s (
              and_then r (λ _.
                modify (λ u. record u {
                  dirty_region = some (rectangle x y (w % 2 ^ 16) (h % 2 ^ 16));
                })))
      cases _ (drawn l) = rw (same hw, same hh) (replaced refl l.pixels)
      cases _ (failed l) = stopped l
