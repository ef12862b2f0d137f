-- ===== src/Screen/Text.antt =====
-- crates/vmrp-platform/src/lib.rs: text on the screen, in a font of 32 bytes for each character. The
-- bytes of the font's file are an argument.
pub mod Line
pub mod Clipped
use vmrp_rust.Prelude.{
  ℕ, zero, suc, ◌+◌, ◌-◌, ◌*◌, ◌%◌, ◌^◌, min, Bool, not, Option, none, some, List, [], ◌∷◌, length,
  take, drop, ltb, ◌==◌, if◌then◌else◌, bit_or,
}
use vmrp_rust.Prelude.Int.{ℤ, pos, add_i32}
use vmrp_rust.Prelude.State.{pure, modify, for_range, ◌>>=◌, ◌>>◌}
use vmrp_rust.Word.{add32, mul32, bit}
use vmrp_rust.Abi.{Bytes, nth}
use vmrp_rust.Cpu.Memory.{MemoryBus}
use vmrp_rust.Screen.{Draw, of_read, write_pixel, off_screen, pixel_index, mark_dirty_region}

-- No glyph when the font is empty or ends before it.
unfoldable pub load_sky16_glyph : Bytes → ℕ → Option Bytes
load_sky16_glyph font ch =
    let start = ch * 32 in
    if ltb (length font) (start + 32) then none else some (take 32 (drop start font))

abbrev pub glyph_width : ℕ → ℕ
glyph_width ch = if ltb ch 128 then 8 else 16

-- A row of a glyph: bit 15 is its first column.
abbrev pub glyph_row : Bytes → ℕ → ℕ
glyph_row glyph row = bit_or (nth glyph (row * 2) * 2 ^ 8 % 2 ^ 16) (nth glyph (row * 2 + 1))

unfoldable pub draw_column : ℤ → ℤ → ℕ → ℕ → ℕ → Draw (Unit {0})
unfolding write_pixel
draw_column x yy color data_row col =
    let xx = add_i32 x (pos col) in
    if not (bit data_row (15 - col))
    then pure tt
    else if off_screen xx yy
    then pure tt
    else write_pixel (pixel_index xx yy) color

-- Once the glyph is loaded, or not.
unfoldable pub draw_glyph : ℕ → ℤ → ℤ → ℕ → Option Bytes → Draw ℕ
unfolding draw_column
draw_glyph ch x y color none = pure 0
draw_glyph ch x y color (some glyph) = do
  for_range 0 16 (λ row.
      for_range 0 (glyph_width ch)
        (draw_column x (add_i32 y (pos row)) color (glyph_row glyph row)))
  pure (glyph_width ch)

unfoldable pub draw_sky16_char : Bytes → ℕ → ℤ → ℤ → ℕ → Draw ℕ
unfolding draw_glyph load_sky16_glyph
draw_sky16_char font ch x y color = draw_glyph ch x y color (load_sky16_glyph font ch)

-- The loop over the characters of a text, with the width that is drawn so far, a u16.
unfoldable pub draw_chars : Bytes → List ℕ → ℤ → ℤ → ℕ → ℕ → Draw ℕ
unfolding draw_sky16_char
draw_chars font [] cursor_x y color total_w = pure total_w
draw_chars font (ch ∷ chars) cursor_x y color total_w = do
  width ← draw_sky16_char font ch cursor_x y color
  draw_chars font chars (add_i32 cursor_x (pos width)) y color (min (total_w + width) (2 ^ 16 - 1))

-- The text of `handle_legacy_draw_text`, once its characters are read.
unfoldable pub draw_text : Bytes → List ℕ → ℤ → ℤ → ℕ → Draw (Unit {0})
unfolding draw_chars mark_dirty_region
draw_text font chars x y color = do
  total_w ← draw_chars font chars x y color 0
  if ltb 0 total_w then modify (mark_dirty_region x y total_w 16) else pure tt

module _ {M : Type 0} ⦃bus : MemoryBus M⦄ (memory : M) where
  -- Pairs of bytes, the high byte first, until a zero.
  unfoldable pub read_wide : ℕ → ℕ → ℕ → Draw (List ℕ)
  read_wide addr index zero = pure []
  read_wide addr index (suc left) = do
    let offset = mul32 (index % 2 ^ 32) 2
    hi ← of_read (bus.read8 memory (add32 addr offset))
    lo ← of_read (bus.read8 memory (add32 (add32 addr offset) 1))
    let ch = lo + hi * 2 ^ 8
    if ch == 0 then pure [] else (do chars ← read_wide addr (suc index) left; pure (ch ∷ chars))

  unfoldable pub read_narrow : ℕ → ℕ → ℕ → Draw (List ℕ)
  read_narrow addr index zero = pure []
  read_narrow addr index (suc left) = do
    ch ← of_read (bus.read8 memory (add32 addr (index % 2 ^ 32)))
    if ch == 0 then pure [] else (do chars ← read_narrow addr (suc index) left; pure (ch ∷ chars))

  unfoldable pub read_guest_text_chars : ℕ → Bool → ℕ → Draw (List ℕ)
  unfolding read_wide read_narrow
  read_guest_text_chars addr is_unicode max_chars =
      if addr == 0
      then pure []
      else if is_unicode
      then read_wide addr 0 max_chars
      else read_narrow addr 0 max_chars
