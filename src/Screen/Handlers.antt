-- ===== src/Screen/Handlers.antt =====
-- crates/vmrp-platform/src/lib.rs: the host's services that draw, from `handle_legacy_draw_point` to
-- `handle_legacy_draw_bitmap_ex`, with their arguments in the registers and on the stack.
pub mod Reads
pub mod Served
pub mod TextEx
pub mod All
use vmrp_rust.Prelude.{
  ℕ, ◌-◌, ◌*◌, ◌/◌, ◌%◌, ◌^◌, Bool, false, ◌&&◌, none, some, ltb, ◌==◌, ◌!=◌, if◌then◌else◌, bit_or,
}
use vmrp_rust.Prelude.Int.{ℤ, pos, negsuc, as_i32}
use vmrp_rust.Prelude.Result.{Result, ok, err}
use vmrp_rust.Prelude.State.{Stateful, pure, modify, gets, ◌>>=◌, ◌>>◌}
use vmrp_rust.Word.{add32}
use vmrp_rust.Abi.{Bytes}
use vmrp_rust.Cpu.Memory.{MemoryAccessError, MemoryBus}
use vmrp_rust.Cpu.Regs.{sp_index}
use vmrp_rust.Allocator.Ext.{Host}
use vmrp_rust.Allocator.Ext.Handlers.{put, return_to_lr}
use vmrp_rust.Screen.{
  Screen, Draw, DrawError, unreadable, GuestBitmapDraw, plot_screen_pixel, fill_screen_rect,
  blit_guest_bitmap, blit_raw_rgb565_bitmap, count_non_matching_bitmap_pixels,
}
use vmrp_rust.Screen.Text.{read_guest_text_chars, draw_text}

-- The host with its screen.
pub record Console (M : Type 0) : Type 0 where
  pub host : Host M
  pub screen : Screen

abbrev pub Service : Type 0 → Type 0 → Type 0
Service M A = Stateful (Console M) DrawError A

-- `((r as u16 >> 3) << 11) | ((g as u16 >> 2) << 5) | (b as u16 >> 3)` on u8.
unfoldable pub rgb888_to_rgb565 : ℕ → ℕ → ℕ → ℕ
rgb888_to_rgb565 r g b =
    bit_or (bit_or (r / 2 ^ 3 * 2 ^ 11 % 2 ^ 16) (g / 2 ^ 2 * 2 ^ 5 % 2 ^ 16)) (b / 2 ^ 3)

-- `a as i16` on u16.
abbrev pub as_i16 : ℕ → ℤ
as_i16 a = if ltb a (2 ^ 15) then pos a else negsuc (2 ^ 16 - a - 1)

pub record GuestTransMatrix : Type 0 where
  pub a : ℤ
  pub b : ℤ
  pub c : ℤ
  pub d : ℤ
  pub rop : ℕ

abbrev pub is_zero : ℤ → Bool
is_zero (pos n) = n == 0
is_zero (negsuc n) = false

abbrev pub is_unit : ℤ → Bool
is_unit (pos n) = n == 0x0100
is_unit (negsuc n) = false

abbrev pub is_identity : GuestTransMatrix → Bool
is_identity t = is_zero t.b && is_zero t.c && is_unit t.a && is_unit t.d

module _ {M : Type 0} ⦃bus : MemoryBus M⦄ where
  -- A register below 16, and a word, a half and the end of a handler.
  abbrev pub arg : ℕ → Service M ℕ
  arg index = gets (λ c. c.host.regs.regs index)

  abbrev pub of_access : {A : Type 0} → Result MemoryAccessError A → Service M A
  of_access (ok a) c = (ok a, c)
  of_access (err e) c = (err (unreadable e), c)

  abbrev pub load32 : ℕ → Service M ℕ
  load32 addr c = of_access (bus.read32 c.host.memory addr) c

  abbrev pub load16 : ℕ → Service M ℕ
  load16 addr c = of_access (bus.read16 c.host.memory addr) c

  -- Drawing with the guest's memory at hand.
  abbrev pub with_screen :
      {A : Type 0} → Result DrawError A × Screen → Console M → Result DrawError A × Console M
  with_screen (r, s) c = (r, record c { screen = s })

  abbrev pub on_memory : {A : Type 0} → (M → Draw A) → Service M A
  on_memory f c = with_screen (f c.host.memory c.screen) c

  unfoldable pub return_with : ℕ → Service M (Unit {0})
  unfolding return_to_lr
  return_with out =
      modify
        (λ c. record c { host = return_to_lr (record c.host { regs = put 0 out c.host.regs }) })

  unfoldable pub handle_legacy_draw_point : Service M (Unit {0})
  unfolding return_with plot_screen_pixel
  handle_legacy_draw_point = do
    x ← arg 0
    y ← arg 1
    color ← arg 2
    on_memory (λ _. plot_screen_pixel (as_i32 x) (as_i32 y) (color % 2 ^ 16))
    return_with 0

  unfoldable pub handle_legacy_draw_rect : Service M (Unit {0})
  unfolding return_with fill_screen_rect rgb888_to_rgb565
  handle_legacy_draw_rect = do
    x ← arg 0
    y ← arg 1
    w ← arg 2
    h ← arg 3
    sp ← arg sp_index
    r ← load32 sp
    g ← load32 (add32 sp 4)
    b ← load32 (add32 sp 8)
    on_memory (λ _.
        fill_screen_rect (as_i32 x) (as_i32 y) (as_i32 w) (as_i32 h)
          (rgb888_to_rgb565 (r % 2 ^ 8) (g % 2 ^ 8) (b % 2 ^ 8)))
    return_with 0

  unfoldable pub handle_legacy_draw_bitmap : Service M (Unit {0})
  unfolding return_with blit_raw_rgb565_bitmap
  handle_legacy_draw_bitmap = do
    bmp_ptr ← arg 0
    x ← arg 1
    y ← arg 2
    w ← arg 3
    sp ← arg sp_index
    h ← load32 sp
    on_memory (λ memory.
        blit_raw_rgb565_bitmap memory bmp_ptr (as_i32 x) (as_i32 y) (w % 2 ^ 16) (h % 2 ^ 16))
    return_with 0

  -- The answer is the count, which is below 2 ^ 17: no more pixels are on the screen.
  unfoldable pub handle_legacy_bitmap_check : Service M (Unit {0})
  unfolding return_with count_non_matching_bitmap_pixels
  handle_legacy_bitmap_check = do
    bmp_ptr ← arg 0
    x ← arg 1
    y ← arg 2
    w ← arg 3
    sp ← arg sp_index
    h ← load32 sp
    transparent ← load32 (add32 sp 4)
    color_check ← load32 (add32 sp 8)
    result ← on_memory (λ memory.
        count_non_matching_bitmap_pixels memory bmp_ptr (as_i32 x) (as_i32 y) (w % 2 ^ 16)
          (h % 2 ^ 16) (transparent % 2 ^ 16) (color_check % 2 ^ 16))
    return_with result

  -- The last word on the stack, the font, is read and not used.
  unfoldable pub handle_legacy_draw_text : Bytes → Service M (Unit {0})
  unfolding return_with read_guest_text_chars draw_text rgb888_to_rgb565
  handle_legacy_draw_text font = do
    text_ptr ← arg 0
    x ← arg 1
    y ← arg 2
    r ← arg 3
    sp ← arg sp_index
    g ← load32 sp
    b ← load32 (add32 sp 4)
    is_unicode ← load32 (add32 sp 8)
    unused ← load32 (add32 sp 12)
    on_memory (λ memory. do
      chars ← read_guest_text_chars memory text_ptr (is_unicode != 0) 1024
      draw_text font chars (as_i32 x) (as_i32 y)
          (rgb888_to_rgb565 (r % 2 ^ 8) (g % 2 ^ 8) (b % 2 ^ 8)))
    return_with 0

  unfoldable pub read_guest_bitmap_draw : ℕ → Service M GuestBitmapDraw
  read_guest_bitmap_draw addr = do
    p ← load32 addr
    w ← load16 (add32 addr 4)
    h ← load16 (add32 addr 6)
    x ← load16 (add32 addr 8)
    y ← load16 (add32 addr 10)
    pure (record { p = p; w = w; h = h; x = as_i16 x; y = as_i16 y })

  unfoldable pub read_guest_trans_matrix : ℕ → Service M GuestTransMatrix
  read_guest_trans_matrix addr = do
    a ← load16 addr
    b ← load16 (add32 addr 2)
    c ← load16 (add32 addr 4)
    d ← load16 (add32 addr 6)
    rop ← load16 (add32 addr 8)
    pure (record { a = as_i16 a; b = as_i16 b; c = as_i16 c; d = as_i16 d; rop = rop })

  -- A bitmap that is turned or scaled is not drawn.
  unfoldable pub handle_legacy_draw_bitmap_ex : Service M (Unit {0})
  unfolding return_with read_guest_bitmap_draw read_guest_trans_matrix blit_guest_bitmap
  handle_legacy_draw_bitmap_ex = do
    src_addr ← arg 0
    src ← read_guest_bitmap_draw src_addr
    dst_addr ← arg 1
    dst ← read_guest_bitmap_draw dst_addr
    w ← arg 2
    h ← arg 3
    sp ← arg sp_index
    trans_addr ← load32 sp
    trans ← read_guest_trans_matrix trans_addr
    transcolor ← load32 (add32 sp 4)
    if is_identity trans
        then on_memory (λ memory.
          blit_guest_bitmap memory src dst (w % 2 ^ 16) (h % 2 ^ 16)
            (if trans.rop == 6 then some (transcolor % 2 ^ 16) else none))
        else pure tt
    return_with 0
