-- ===== src/Screen/Text/Clipped/Inside.antt =====
-- Clipped text (`draw_sky16_char_clipped` of crates/vmrp-platform/src/lib.rs) and the dirty region.
use vmrp_rust.Prelude.{
  ℕ, ◌-◌, ◌≤◌, ◌<◌, ◌^◌, ◌≡◌, ◌∙◌, refl, sym, ◌⊎◌, inl, inr, true, false, not, ◌&&◌, Option, none,
  some, arith, ltb, if◌then◌else◌,
}
use vmrp_rust.Prelude.Int.{ℤ, pos, pos_part, neg_part, add_i32, ltb_ℤ, leb_ℤ}
use vmrp_rust.Prelude.Result.{Result, ok}
use vmrp_rust.Prelude.State.{and_then, pure, modify, for_range, ◌>>◌}
use vmrp_rust.Word.{bit}
use vmrp_rust.Abi.{Bytes}
use vmrp_rust.Screen.{Screen, DrawError, screen_width, screen_height, mark_dirty_region}
use vmrp_rust.Screen.Draws.{
  at, Drawn, drawn, failed, Draws, pure-Draws, for_range-Draws, if-Draws, write_pixel-Draws,
}
use vmrp_rust.Screen.Region.{InSpan, Dirty, InScreen}
use vmrp_rust.Screen.Tracks.{IsI32, InRect, Tracks, Tracked, tracked, not_read, span, mark_after}
use vmrp_rust.Screen.Text.{glyph_width, glyph_row, load_sky16_glyph}
use vmrp_rust.Screen.Text.Clipped.{
  Clip, outside, clipped_column, clipped_row, dirty_start, dirty_end, draw_clipped_glyph,
  draw_sky16_char_clipped,
}

-- What the test of a column or a row lets through.
inside :
    (low high : ℤ) (size : ℕ) (z : ℤ)
    → outside low high size z ≡ false
    → (neg_part z ≡ 0) × (pos_part z < size) × (ltb_ℤ z low ≡ false) × (leb_ℤ high z ≡ false)
inside low high size z h = ground arith

-- A pixel that is let through is in the range that is marked.
marked_span :
    (z low high : ℤ) (len size n : ℕ)
    → size < 2 ^ 16
    → n < size
    → InSpan z len n
    → ltb_ℤ (pos n) low ≡ false
    → leb_ℤ high (pos n) ≡ false
    → InSpan (pos (dirty_start z low)) (dirty_end size z len high - dirty_start z low) n
marked_span z low high len size n hs hn h p q = ground arith

natural : (z : ℤ) → neg_part z ≡ 0 → z ≡ pos (pos_part z)
natural z h = ground arith

module _ (clip : Clip) (x y : ℤ) (vx : IsI32 x) (vy : IsI32 y) (width : ℕ) (hw : width ≤ 16) where
  -- The part of the screen that is marked.
  abbrev Area : ℕ → ℕ → Type 0
  Area =
      InRect (pos (dirty_start x clip.left)) (pos (dirty_start y clip.top))
        (dirty_end screen_width x width clip.right - dirty_start x clip.left)
        (dirty_end screen_height y 16 clip.bottom - dirty_start y clip.top)

  marked :
      (z low high : ℤ) (len size i : ℕ)
      → size < 2 ^ 16
      → IsI32 z
      → i < len
      → len ≤ 16
      → outside low high size (add_i32 z (pos i)) ≡ false
      → (pos_part (add_i32 z (pos i)) < size)
        × InSpan
            (pos (dirty_start z low))
            (dirty_end size z len high - dirty_start z low)
            (pos_part (add_i32 z (pos i)))
  marked z low high len size i hs v hi hl p =
      let zz = add_i32 z (pos i) in
      let (n, lt, above, below) = inside low high size zz p in
      let e = natural zz n in
      (
        lt,
        marked_span z low high len size (pos_part zz) hs lt
            (span z i len (pos_part zz) v hi (omega arith) n refl (omega arith))
            (coe 0 1 (k. ltb_ℤ (e k) low ≡ false) above)
            (coe 0 1 (k. leb_ℤ high (e k) ≡ false) below),
      )

  clipped_row-Draws :
      (glyph : Bytes) (color row : ℕ)
      → row < 16
      → Draws Area (clipped_row clip glyph width x y color row)
  unfolding clipped_row clipped_column
  clipped_row-Draws glyph color row hr =
      let yy = add_i32 y (pos row) in
      if-Draws (outside clip.top clip.bottom screen_height yy) (pure tt) _ (λ _. pure-Draws tt)
        (λ p.
          let (ly, iny) =
            marked y clip.top clip.bottom 16 screen_height row (omega arith) vy hr (omega arith)
              p in
          for_range-Draws 0 width _ (λ col a b.
            let xx = add_i32 x (pos col) in
            if-Draws (not (bit (glyph_row glyph row) (15 - col))) (pure tt) _ (λ _. pure-Draws tt)
              (λ _.
                if-Draws (outside clip.left clip.right screen_width xx) (pure tt) _
                  (λ _. pure-Draws tt)
                  (λ q.
                    let (lx, inx) =
                      marked x clip.left clip.right width screen_width col (omega arith) vx
                        (omega arith) hw q in
                    write_pixel-Draws (pos_part xx) (pos_part yy) color lx ly (inx, iny)))))

  module _ (shown : ℕ → ℕ → ℕ) (s : Screen) (i : InScreen s.dirty_region)
      (track : Tracks shown s) where
    then_width :
        (r : Result DrawError (Unit {0}) × Screen)
        → Tracked shown r
        → Tracked {A = ℕ} shown (and_then r (λ _. pure width))
    then_width _ (tracked i t) = tracked i t
    then_width _ (not_read i) = not_read i

    -- The mark after the pixels, or none when the range is empty.
    mark_if :
        (x0 y0 x1 y1 : ℕ) (r : Result DrawError (Unit {0}) × Screen)
        → Drawn (InRect (pos x0) (pos y0) (x1 - x0) (y1 - y0)) s r
        → Tracked {A = Unit {0}} shown (
            and_then r (λ _.
              if ltb x0 x1 && ltb y0 y1
              then modify (mark_dirty_region (pos x0) (pos y0) (x1 - x0) (y1 - y0))
              else pure tt))
    mark_if x0 y0 x1 y1 _ (failed l) = not_read (coe 1 0 (k. InScreen (l.dirty k)) i)
    mark_if x0 y0 x1 y1 _ (drawn {t = u} l) =
        elim (ltb x0 x1 && ltb y0 y1)
            as (λ b.
              (ltb x0 x1 && ltb y0 y1) ≡ b
              → Tracked {A = Unit {0}} shown (
                  (if b
                      then modify (mark_dirty_region (pos x0) (pos y0) (x1 - x0) (y1 - y0))
                      else pure tt)
                    u)) [
                      | true ↦ λ p.
                          mark_after (pos x0) (pos y0) (x1 - x0) (y1 - y0) i track (ok tt, u)
                            (drawn l)
                      | false ↦ λ p.
                          tracked (coe 1 0 (k. InScreen (l.dirty k)) i)
                            (λ px py hx hy. kept px py p (l.pixels px py hx hy) (track px py hx hy))
                    ]
          refl
      where
        kept :
            (px py : ℕ)
            → (ltb x0 x1 && ltb y0 y1) ≡ false
            → (at u px py ≡ at s px py) ⊎ InRect (pos x0) (pos y0) (x1 - x0) (y1 - y0) px py
            → (at s px py ≡ shown px py) ⊎ Dirty px py s.dirty_region
            → (at u px py ≡ shown px py) ⊎ Dirty px py u.dirty_region
        kept px py p (inr ((a, b), (c, d))) _ = absurd (ground arith)
        kept px py p (inl q) (inl r) = inl (q ∙ r)
        kept px py p (inl q) (inr d) = inr (coe 1 0 (k. Dirty px py (l.dirty k)) d)

    draw_clipped_glyph-Tracked :
        (color : ℕ) (glyph : Option Bytes)
        → Tracked shown (draw_clipped_glyph clip width x y color glyph s)
    unfolding draw_clipped_glyph
    draw_clipped_glyph-Tracked color none = tracked i track
    draw_clipped_glyph-Tracked color (some glyph) =
        then_width_after (for_range 0 16 (clipped_row clip glyph width x y color) s) (
          for_range-Draws 0 16 (clipped_row clip glyph width x y color)
            (λ row a b. clipped_row-Draws glyph color row (omega arith)) s)
      where
        then_width_after :
            (r : Result DrawError (Unit {0}) × Screen)
            → Drawn Area s r
            → Tracked {A = ℕ} shown (
                and_then r (λ _.
                  (if ltb (dirty_start x clip.left) (dirty_end screen_width x width clip.right)
                      && ltb (dirty_start y clip.top) (dirty_end screen_height y 16 clip.bottom)
                    then modify (
                        mark_dirty_region
                          (pos (dirty_start x clip.left))
                          (pos (dirty_start y clip.top))
                          (dirty_end screen_width x width clip.right - dirty_start x clip.left)
                          (dirty_end screen_height y 16 clip.bottom - dirty_start y clip.top))
                    else pure tt)
                  >> pure width))
        then_width_after _ (drawn {t = u} l) = then_width _ (
            mark_if (dirty_start x clip.left) (dirty_start y clip.top)
              (dirty_end screen_width x width clip.right) (dirty_end screen_height y 16 clip.bottom)
              (ok tt, u) (drawn l))
        then_width_after _ (failed l) = not_read (coe 1 0 (k. InScreen (l.dirty k)) i)

    pub draw_sky16_char_clipped-Tracked_of :
        (font : Bytes) (ch color : ℕ)
        → width ≡ glyph_width ch
        → Tracked shown (draw_sky16_char_clipped font ch x y color clip s)
    unfolding draw_sky16_char_clipped
    draw_sky16_char_clipped-Tracked_of font ch color e =
        rw (sym e) (draw_clipped_glyph-Tracked color (load_sky16_glyph font ch))
