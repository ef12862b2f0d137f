-- ===== src/Screen/Handlers/All.antt =====
-- All the drawing services of crates/vmrp-platform/src/lib.rs together.
use vmrp_rust.Prelude.{ℕ, ◌%◌, ◌^◌, Bool, true, false, none, some, arith, if◌then◌else◌, ◌==◌, ◌!=◌}
use vmrp_rust.Prelude.Int.{as_i32}
use vmrp_rust.Prelude.State.{pure, ◌>>◌}
use vmrp_rust.Word.{add32}
use vmrp_rust.Abi.{Bytes}
use vmrp_rust.Cpu.Memory.{MemoryBus}
use vmrp_rust.Cpu.Regs.{sp_index}
use vmrp_rust.Screen.{Draw, GuestBitmapDraw}
use vmrp_rust.Screen.Region.{InScreen}
use vmrp_rust.Screen.Tracks.{IsI32, Tracks, Tracked}
use vmrp_rust.Screen.Bitmaps.{blit_guest_bitmap-Tracked, blit_raw_rgb565_bitmap-Tracked}
use vmrp_rust.Screen.Text.{read_guest_text_chars, draw_text}
use vmrp_rust.Screen.Text.Line.{draw_text-Tracked}
use vmrp_rust.Screen.Handlers.{
  Console, Service, rgb888_to_rgb565, is_identity, on_memory, return_with, read_guest_bitmap_draw,
  read_guest_trans_matrix, handle_legacy_draw_point, handle_legacy_draw_rect,
  handle_legacy_draw_bitmap, handle_legacy_bitmap_check, handle_legacy_draw_text,
  handle_legacy_draw_bitmap_ex,
}
use vmrp_rust.Screen.Handlers.Reads.{
  Any, read_guest_text_chars-Reads, count_non_matching_bitmap_pixels-Reads,
}
use vmrp_rust.Screen.Handlers.TextEx.{handle_legacy_draw_text_ex, handle_legacy_draw_text_ex-Serves}
use vmrp_rust.Screen.Handlers.Served.{
  Served, served, Serves, bind-Serves, reads_then_draws, as_i16-IsI32, as_i32-IsI32, arg-Serves,
  load32-Serves, load16-Serves, return_with-Serves, draw_and_return, Got-Served,
  handle_legacy_draw_point-Serves, handle_legacy_draw_rect-Serves,
}

-- The drawing services that plot_screen_pixel, fill_screen_rect, the two copies of bitmaps, the check of
-- a bitmap and the two drawings of text make: all but DrawBitmap, which replaces the dirty region.
pub data DrawingService : Type 0 where
  draw_point draw_rect draw_bitmap bitmap_check draw_bitmap_ex : DrawingService
  draw_text_with draw_text_ex_with : Bytes → DrawingService

-- A header of a bitmap is at a place of i16.
abbrev IsPlaced : GuestBitmapDraw → Type 0
IsPlaced b = IsI32 b.x × IsI32 b.y

module _ {M : Type 0} ⦃bus : MemoryBus M⦄ where
  handle_legacy_draw_bitmap-Serves : Serves {M = M} Any handle_legacy_draw_bitmap
  unfolding handle_legacy_draw_bitmap
  handle_legacy_draw_bitmap-Serves = bind-Serves _ _ (arg-Serves 0) (λ bmp_ptr _.
      bind-Serves _ _ (arg-Serves 1) (λ x _. bind-Serves _ _ (arg-Serves 2) (λ y _.
        bind-Serves _ _ (arg-Serves 3) (λ w _. bind-Serves _ _ (arg-Serves sp_index) (λ sp _.
          bind-Serves _ _ (load32-Serves sp) (λ h _. draw_and_return _ 0 (λ shown c i t.
            blit_raw_rgb565_bitmap-Tracked c.host.memory shown c.screen i t bmp_ptr (as_i32 x)
              (as_i32 y) (w % 2 ^ 16) (h % 2 ^ 16) (as_i32-IsI32 x) (as_i32-IsI32 y) (omega arith)
              (omega arith))))))))

  handle_legacy_bitmap_check-Serves : Serves {M = M} Any handle_legacy_bitmap_check
  unfolding handle_legacy_bitmap_check
  handle_legacy_bitmap_check-Serves = bind-Serves _ _ (arg-Serves 0) (λ bmp_ptr _.
      bind-Serves _ _ (arg-Serves 1) (λ x _. bind-Serves _ _ (arg-Serves 2) (λ y _.
        bind-Serves _ _ (arg-Serves 3) (λ w _. bind-Serves _ _ (arg-Serves sp_index) (λ sp _.
          bind-Serves _ _ (load32-Serves sp) (λ h _.
            bind-Serves _ _ (load32-Serves (add32 sp 4)) (λ transparent _.
              bind-Serves _ _ (load32-Serves (add32 sp 8)) (λ color_check _.
                bind-Serves {P = Any} _ _
                  (λ shown c i t. Got-Served c _ i t (
                    count_non_matching_bitmap_pixels-Reads c.host.memory bmp_ptr (as_i32 x)
                      (as_i32 y) (w % 2 ^ 16) (transparent % 2 ^ 16) (color_check % 2 ^ 16)
                      (h % 2 ^ 16) c.screen))
                  (λ result _. return_with-Serves result)))))))))

  handle_legacy_draw_text-Serves :
      (font : Bytes) → Serves {M = M} Any (handle_legacy_draw_text font)
  unfolding handle_legacy_draw_text
  handle_legacy_draw_text-Serves font = bind-Serves _ _ (arg-Serves 0) (λ text_ptr _.
      bind-Serves _ _ (arg-Serves 1) (λ x _. bind-Serves _ _ (arg-Serves 2) (λ y _.
        bind-Serves _ _ (arg-Serves 3) (λ r _. bind-Serves _ _ (arg-Serves sp_index) (λ sp _.
          bind-Serves _ _ (load32-Serves sp) (λ g _.
            bind-Serves _ _ (load32-Serves (add32 sp 4)) (λ b _.
              bind-Serves _ _ (load32-Serves (add32 sp 8)) (λ is_unicode _.
                bind-Serves _ _ (load32-Serves (add32 sp 12)) (λ unused _.
                  draw_and_return _ 0 (λ shown c i t.
                    let color = rgb888_to_rgb565 (r % 2 ^ 8) (g % 2 ^ 8) (b % 2 ^ 8) in
                    reads_then_draws
                      (read_guest_text_chars c.host.memory text_ptr (is_unicode != 0) 1024)
                      (λ chars. draw_text font chars (as_i32 x) (as_i32 y) color) shown c.screen i
                      (read_guest_text_chars-Reads c.host.memory text_ptr (is_unicode != 0) 1024)
                      (λ chars h.
                        draw_text-Tracked (as_i32 x) (as_i32 y) (as_i32-IsI32 x) (as_i32-IsI32 y)
                          shown c.screen i t font chars color h)))))))))))

  pure-Serves : {A : Type 0} {P : A → Type 0} (a : A) → P a → Serves {M = M} P (pure a)
  pure-Serves a p shown c i t = served p i t

  read_guest_bitmap_draw-Serves : (addr : ℕ) → Serves {M = M} IsPlaced (read_guest_bitmap_draw addr)
  unfolding read_guest_bitmap_draw
  read_guest_bitmap_draw-Serves addr = bind-Serves _ _ (load32-Serves addr) (λ p _.
      bind-Serves _ _ (load16-Serves (add32 addr 4)) (λ w _.
        bind-Serves _ _ (load16-Serves (add32 addr 6)) (λ h _.
          bind-Serves _ _ (load16-Serves (add32 addr 8)) (λ x _.
            bind-Serves _ _ (load16-Serves (add32 addr 10))
              (λ y _. pure-Serves {P = IsPlaced} _ (as_i16-IsI32 x, as_i16-IsI32 y))))))

  read_guest_trans_matrix-Serves : (addr : ℕ) → Serves {M = M} Any (read_guest_trans_matrix addr)
  unfolding read_guest_trans_matrix
  read_guest_trans_matrix-Serves addr = bind-Serves _ _ (load16-Serves addr) (λ a _.
      bind-Serves _ _ (load16-Serves (add32 addr 2)) (λ b _.
        bind-Serves _ _ (load16-Serves (add32 addr 4)) (λ c _.
          bind-Serves _ _ (load16-Serves (add32 addr 6)) (λ d _.
            bind-Serves _ _ (load16-Serves (add32 addr 8)) (λ rop _. pure-Serves {P = Any} _ tt)))))

  -- A drawing that is skipped or made, and the return.
  maybe_draw_and_return :
      (test : Bool) (f : M → Draw (Unit {0})) (out : ℕ)
      → ((shown : ℕ → ℕ → ℕ) (c : Console M)
          → InScreen c.screen.dirty_region
          → Tracks shown c.screen
          → Tracked shown (f c.host.memory c.screen))
      → Serves {M = M} Any ((if test then on_memory f else pure tt) >> return_with out)
  maybe_draw_and_return true f out h = draw_and_return f out h
  maybe_draw_and_return false f out h =
      bind-Serves {P = Any} (pure tt) (λ _. return_with out) (λ shown c i t. served tt i t)
        (λ _ _. return_with-Serves out)

  handle_legacy_draw_bitmap_ex-Serves : Serves {M = M} Any handle_legacy_draw_bitmap_ex
  unfolding handle_legacy_draw_bitmap_ex
  handle_legacy_draw_bitmap_ex-Serves = bind-Serves _ _ (arg-Serves 0) (λ src_addr _.
      bind-Serves _ _ (read_guest_bitmap_draw-Serves src_addr) (λ src _.
        bind-Serves _ _ (arg-Serves 1) (λ dst_addr _.
          bind-Serves _ _ (read_guest_bitmap_draw-Serves dst_addr) (λ dst placed.
            bind-Serves _ _ (arg-Serves 2) (λ w _. bind-Serves _ _ (arg-Serves 3) (λ h _.
              bind-Serves _ _ (arg-Serves sp_index) (λ sp _.
                bind-Serves _ _ (load32-Serves sp) (λ trans_addr _.
                  bind-Serves _ _ (read_guest_trans_matrix-Serves trans_addr) (λ trans _.
                    bind-Serves _ _ (load32-Serves (add32 sp 4)) (λ transcolor _.
                      maybe_draw_and_return (is_identity trans) _ 0 (λ shown c i t.
                        blit_guest_bitmap-Tracked c.host.memory shown c.screen i t src dst
                          (w % 2 ^ 16) (h % 2 ^ 16)
                          (if trans.rop == 6 then some (transcolor % 2 ^ 16) else none) (placed.0)
                          (placed.1) (omega arith) (omega arith))))))))))))

  unfoldable pub serve : DrawingService → Service M (Unit {0})
  unfolding handle_legacy_draw_point
  serve draw_point = handle_legacy_draw_point
  serve draw_rect = handle_legacy_draw_rect
  serve draw_bitmap = handle_legacy_draw_bitmap
  serve bitmap_check = handle_legacy_bitmap_check
  serve draw_bitmap_ex = handle_legacy_draw_bitmap_ex
  serve (draw_text_with font) = handle_legacy_draw_text font
  serve (draw_text_ex_with font) = handle_legacy_draw_text_ex font

  serve-Serves : (d : DrawingService) → Serves {M = M} Any (serve d)
  unfolding serve
  serve-Serves draw_point = handle_legacy_draw_point-Serves
  serve-Serves draw_rect = handle_legacy_draw_rect-Serves
  serve-Serves draw_bitmap = handle_legacy_draw_bitmap-Serves
  serve-Serves bitmap_check = handle_legacy_bitmap_check-Serves
  serve-Serves draw_bitmap_ex = handle_legacy_draw_bitmap_ex-Serves
  serve-Serves (draw_text_with font) = handle_legacy_draw_text-Serves font
  serve-Serves (draw_text_ex_with font) = handle_legacy_draw_text_ex-Serves font

  -- Each of the seven drawing services of DrawingService, for any registers, memory and font, on a screen
  -- whose dirty region lies in it and covers every pixel that the window does not show, never panics.
  -- When it answers, the dirty region still lies in the screen and covers every such pixel. When it fails
  -- on a read of the guest's memory, the dirty region lies in the screen, and no more is said of it. The
  -- DrawBitmap service of handle_dsm_callback is not one of the seven.
  pub serve-Served :
      (d : DrawingService) (shown : ℕ → ℕ → ℕ) (c : Console M)
      → InScreen c.screen.dirty_region
      → Tracks shown c.screen
      → Served Any shown (serve d c)
  serve-Served d shown c i t = serve-Serves d shown c i t
