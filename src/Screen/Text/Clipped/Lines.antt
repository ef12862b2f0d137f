-- ===== src/Screen/Text/Clipped/Lines.antt =====
-- The loop of `handle_legacy_draw_text_ex` (crates/vmrp-platform/src/lib.rs) and the dirty region.
use vmrp_rust.Prelude.{
  ℕ, ◌≤◌, refl, Bool, true, false, not, ◌||◌, List, [], ◌∷◌, arith, ltb, ◌==◌, if◌then◌else◌,
}
use vmrp_rust.Prelude.Int.{ℤ, pos, ltb_ℤ, max_ℤ, saturating_add_i32}
use vmrp_rust.Prelude.Result.{Result}
use vmrp_rust.Prelude.State.{and_then, pure}
use vmrp_rust.Abi.{Bytes}
use vmrp_rust.Screen.{Screen, Draw, DrawError}
use vmrp_rust.Screen.Region.{InScreen}
use vmrp_rust.Screen.Tracks.{IsI32, Tracks, Tracked, tracked, not_read}
use vmrp_rust.Screen.Text.{glyph_width}
use vmrp_rust.Screen.Text.Clipped.{
  Clip, Layout, break_line, place, is_line_end, consume, skip, draw_sky16_char_clipped,
  draw_chars_clipped,
}
use vmrp_rust.Screen.Text.Clipped.Inside.{draw_sky16_char_clipped-Tracked_of}

-- The cursor is at a place of i32.
pub record IsPlaced (l : Layout) : Type 0 where
  pub across : IsI32 l.cursor_x
  pub down : IsI32 l.cursor_y

saturating_add_i32-IsI32 : (a b : ℤ) → IsI32 (saturating_add_i32 a b)
saturating_add_i32-IsI32 a b = ground arith

if-IsPlaced : (t : Bool) (l m : Layout) → IsPlaced l → IsPlaced m → IsPlaced (if t then l else m)
if-IsPlaced true l m h k = h
if-IsPlaced false l m h k = k

place-IsPlaced :
    (auto_newline : Bool) (clip : Clip) (ch : ℕ) (l : Layout)
    → IsI32 clip.left
    → IsPlaced l
    → IsPlaced (place auto_newline clip ch l)
unfolding place break_line
place-IsPlaced true clip ch l v h =
    let next = saturating_add_i32 l.cursor_y l.line_height in
    let broken = break_line clip l in
    let width = pos (if ltb ch 128 then 8 else 16) in
    if-IsPlaced (ltb_ℤ clip.right (saturating_add_i32 l.cursor_x width) || ch == 0x0A)
      (if ltb_ℤ clip.bottom broken.cursor_y
        then record broken { exhausted = false }
        else record broken { line_height = max_ℤ broken.line_height (pos 16) })
      (record l { line_height = max_ℤ l.line_height (pos 16) })
      (if-IsPlaced (ltb_ℤ clip.bottom broken.cursor_y) (record broken { exhausted = false })
        (record broken { line_height = max_ℤ broken.line_height (pos 16) })
        (record { across = v; down = saturating_add_i32-IsI32 next (pos 2) })
        (record { across = v; down = saturating_add_i32-IsI32 next (pos 2) }))
      (record { across = h.across; down = h.down })
place-IsPlaced false clip ch l v h =
    let width = pos (if ltb ch 128 then 8 else 16) in
    if-IsPlaced (ltb_ℤ clip.right l.cursor_x || ch == 0x0A) (record l { exhausted = false })
      (if ltb_ℤ clip.right (saturating_add_i32 l.cursor_x width)
        then record l { endchar_index = l.consumed_bytes }
        else l)
      (record { across = h.across; down = h.down })
      (if-IsPlaced (ltb_ℤ clip.right (saturating_add_i32 l.cursor_x width))
        (record l { endchar_index = l.consumed_bytes }) l
        (record { across = h.across; down = h.down }) h)

glyph_width-le : (ch : ℕ) → glyph_width ch ≤ 16
glyph_width-le ch = ground arith

module _ (font : Bytes) (auto_newline : Bool) (clip : Clip) (color : ℕ) (left : IsI32 clip.left)
    (shown : ℕ → ℕ → ℕ) where
  then_drawn :
      (f : Draw Layout) (r : Result DrawError ℕ × Screen)
      → Tracked shown r
      → ((s : Screen) → InScreen s.dirty_region → Tracks shown s → Tracked shown (f s))
      → Tracked shown (and_then r (λ _. f))
  then_drawn f _ (tracked {s = s} i t) k = k s i t
  then_drawn f _ (not_read i) k = not_read i

  if-Tracked :
      (t : Bool) (m n : Draw Layout) (s : Screen)
      → Tracked shown (m s)
      → Tracked shown (n s)
      → Tracked shown ((if t then m else n) s)
  if-Tracked true m n s h k = h
  if-Tracked false m n s h k = k

  pub draw_chars_clipped-Tracked :
      (chars : List ℕ) (l : Layout) (s : Screen)
      → IsPlaced l
      → InScreen s.dirty_region
      → Tracks shown s
      → Tracked shown (draw_chars_clipped font auto_newline clip color chars l s)
  unfolding draw_chars_clipped
  draw_chars_clipped-Tracked [] l s h i t = tracked i t
  draw_chars_clipped-Tracked (ch ∷ chars) l s h i t =
      let m = place auto_newline clip ch l in
      let placed = place-IsPlaced auto_newline clip ch l left h in
      let after = consume (pos (if ltb ch 128 then 8 else 16)) m in
      if-Tracked (not m.exhausted) (pure m) _ s (tracked i t) (
        if-Tracked (is_line_end ch) (draw_chars_clipped font auto_newline clip color chars (skip m))
          _ s
          (draw_chars_clipped-Tracked chars (skip m) s
            (record { across = placed.across; down = placed.down }) i t)
          (then_drawn (draw_chars_clipped font auto_newline clip color chars after)
            (draw_sky16_char_clipped font ch m.cursor_x m.cursor_y color clip s)
            (draw_sky16_char_clipped-Tracked_of clip m.cursor_x m.cursor_y placed.across placed.down
              (glyph_width ch) (glyph_width-le ch) shown s i t font ch color refl)
            (λ u j k.
              draw_chars_clipped-Tracked chars after u
                (record {
                  across = saturating_add_i32-IsI32 m.cursor_x (pos (if ltb ch 128 then 8 else 16));
                  down = placed.down;
                })
                j k)))
