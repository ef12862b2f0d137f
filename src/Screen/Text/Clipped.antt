-- ===== src/Screen/Text/Clipped.antt =====
-- crates/vmrp-platform/src/lib.rs: a character of text that is clipped to a rectangle, and the layout of
-- `handle_legacy_draw_text_ex`.
pub mod Inside
pub mod Lines
use vmrp_rust.Prelude.{
  ℕ, ◌+◌, ◌-◌, ◌^◌, min, Bool, true, false, not, ◌||◌, ◌&&◌, Option, none, some, List, [], ◌∷◌, ltb,
  ◌==◌, if◌then◌else◌,
}
use vmrp_rust.Prelude.Int.{
  ℤ, pos, pos_part, ltb_ℤ, leb_ℤ, min_ℤ, max_ℤ, add_i32, saturating_add_i32,
}
use vmrp_rust.Prelude.State.{pure, modify, for_range, ◌>>=◌, ◌>>◌}
use vmrp_rust.Word.{bit}
use vmrp_rust.Abi.{Bytes}
use vmrp_rust.Screen.{
  Draw, screen_width, screen_height, clamp, pixel_index, write_pixel, mark_dirty_region,
}
use vmrp_rust.Screen.Text.{glyph_width, glyph_row, load_sky16_glyph}

-- The four sides of the rectangle.
pub record Clip : Type 0 where
  pub left : ℤ
  pub top : ℤ
  pub right : ℤ
  pub bottom : ℤ

abbrev pub outside : ℤ → ℤ → ℕ → ℤ → Bool
outside low high size z = ltb_ℤ z low || leb_ℤ high z || ltb_ℤ z (pos 0) || leb_ℤ (pos size) z

unfoldable pub clipped_column : Clip → ℤ → ℤ → ℕ → ℕ → ℕ → Draw (Unit {0})
unfolding write_pixel
clipped_column clip x yy color data_row col =
    let xx = add_i32 x (pos col) in
    if not (bit data_row (15 - col))
    then pure tt
    else if outside clip.left clip.right screen_width xx
    then pure tt
    else write_pixel (pixel_index xx yy) color

unfoldable pub clipped_row : Clip → Bytes → ℕ → ℤ → ℤ → ℕ → ℕ → Draw (Unit {0})
unfolding clipped_column
clipped_row clip glyph width x y color row =
    let yy = add_i32 y (pos row) in
    if outside clip.top clip.bottom screen_height yy
    then pure tt
    else for_range 0 width (clipped_column clip x yy color (glyph_row glyph row))

-- A start of the dirty range is never negative; an end that is negative counts as 0.
abbrev pub dirty_start : ℤ → ℤ → ℕ
dirty_start z low = pos_part (max_ℤ z low)

abbrev pub dirty_end : ℕ → ℤ → ℕ → ℤ → ℕ
dirty_end size z len high = clamp size (min_ℤ (saturating_add_i32 z (pos len)) high)

unfoldable pub draw_clipped_glyph : Clip → ℕ → ℤ → ℤ → ℕ → Option Bytes → Draw ℕ
unfolding clipped_row mark_dirty_region
draw_clipped_glyph clip width x y color none = pure 0
draw_clipped_glyph clip width x y color (some glyph) =
    let x0 = dirty_start x clip.left in
    let y0 = dirty_start y clip.top in
    let x1 = dirty_end screen_width x width clip.right in
    let y1 = dirty_end screen_height y 16 clip.bottom in
    do
      for_range 0 16 (clipped_row clip glyph width x y color)
      if ltb x0 x1 && ltb y0 y1
          then modify (mark_dirty_region (pos x0) (pos y0) (x1 - x0) (y1 - y0))
          else pure tt
      pure width

unfoldable pub draw_sky16_char_clipped : Bytes → ℕ → ℤ → ℤ → ℕ → Clip → Draw ℕ
unfolding draw_clipped_glyph load_sky16_glyph
draw_sky16_char_clipped font ch x y color clip =
    draw_clipped_glyph clip (glyph_width ch) x y color (load_sky16_glyph font ch)

-- The variables of the loop over the characters.
pub record Layout : Type 0 where
  pub cursor_x : ℤ
  pub cursor_y : ℤ
  pub line_height : ℤ
  pub consumed_bytes : ℕ
  pub endchar_index : ℕ
  pub exhausted : Bool

abbrev pub saturating_add_u32 : ℕ → ℕ → ℕ
saturating_add_u32 a b = min (a + b) (2 ^ 32 - 1)

-- The end of a line at a character, where lines are broken.
unfoldable pub break_line : Clip → Layout → Layout
break_line clip l =
    let next = saturating_add_i32 l.cursor_y l.line_height in
    record l {
      cursor_x = clip.left;
      cursor_y = saturating_add_i32 next (pos 2);
      line_height = pos 0;
      endchar_index = if ltb_ℤ next clip.bottom then l.consumed_bytes else l.endchar_index;
    }

-- The layout before a character; it is not exhausted when the loop breaks here. An end of line counts as
-- a space, which is 8 wide too.
unfoldable pub place : Bool → Clip → ℕ → Layout → Layout
unfolding break_line
place true clip ch l =
    let width = pos (if ltb ch 128 then 8 else 16) in
    let broken = break_line clip l in
    let tall = λ (m : Layout). record m { line_height = max_ℤ m.line_height (pos 16) } in
    if ltb_ℤ clip.right (saturating_add_i32 l.cursor_x width) || ch == 0x0A
    then if ltb_ℤ clip.bottom broken.cursor_y
      then record broken { exhausted = false }
      else tall broken
    else tall l
place false clip ch l =
    let width = pos (if ltb ch 128 then 8 else 16) in
    if ltb_ℤ clip.right l.cursor_x || ch == 0x0A
    then record l { exhausted = false }
    else if ltb_ℤ clip.right (saturating_add_i32 l.cursor_x width)
    then record l { endchar_index = l.consumed_bytes }
    else l

abbrev pub is_line_end : ℕ → Bool
is_line_end ch = (ch == 0x0A) || (ch == 0x0D)

-- The layout after a character that takes a width.
abbrev pub consume : ℤ → Layout → Layout
consume width l = record l {
  cursor_x = saturating_add_i32 l.cursor_x width;
  consumed_bytes = saturating_add_u32 l.consumed_bytes 2;
}

abbrev pub skip : Layout → Layout
skip l = record l { consumed_bytes = saturating_add_u32 l.consumed_bytes 2 }

unfoldable pub draw_chars_clipped : Bytes → Bool → Clip → ℕ → List ℕ → Layout → Draw Layout
unfolding place draw_sky16_char_clipped
draw_chars_clipped font auto_newline clip color [] l = pure l
draw_chars_clipped font auto_newline clip color (ch ∷ chars) l =
    let m = place auto_newline clip ch l in
    let after_end = draw_chars_clipped font auto_newline clip color chars (skip m) in
    let after_char =
      draw_chars_clipped font auto_newline clip color chars
        (consume (pos (if ltb ch 128 then 8 else 16)) m) in
    if not m.exhausted
    then pure m
    else if is_line_end ch
    then after_end
    else (draw_sky16_char_clipped font ch m.cursor_x m.cursor_y color clip >>= λ _. after_char)
