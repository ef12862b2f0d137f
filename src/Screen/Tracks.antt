-- ===== src/Screen/Tracks.antt =====
-- The drawing functions of crates/vmrp-platform/src/lib.rs and the dirty region: a pixel of the screen
-- that differs from what the window shows is in the region.
use vmrp_rust.Prelude.{
  ℕ, ◌+◌, ◌-◌, ◌*◌, ◌≤◌, ◌<◌, ◌^◌, ◌≡◌, ◌∙◌, refl, ap, ◌⊎◌, inl, inr, true, false, arith, leb, ◌||◌,
  if◌then◌else◌,
}
use vmrp_rust.Prelude.Int.{ℤ, pos, pos_part, neg_part, add_i32}
use vmrp_rust.Prelude.Result.{Result, ok, err}
use vmrp_rust.Prelude.State.{and_then, pure, modify, for_range, ◌>>◌}
use vmrp_rust.Cpu.Memory.{MemoryAccessError}
use vmrp_rust.Screen.{
  Screen, Draw, DrawError, unreadable, screen_width, screen_height, clamp, off_screen, pixel_index,
  mark_dirty_region, write_pixel, plot_screen_pixel, fill_screen_rect,
}
use vmrp_rust.Screen.Draws.{
  at, Leaves, Drawn, drawn, failed, Draws, for_range-Draws, write_pixel-Draws,
}
use vmrp_rust.Screen.Region.{InSpan, Dirty, InScreen, Marked, mark_dirty_region-Marked}

-- A value of i32.
abbrev pub IsI32 : ℤ → Type 0
IsI32 z = (pos_part z < 2 ^ 31) × (neg_part z ≤ 2 ^ 31)

abbrev pub InRect : ℤ → ℤ → ℕ → ℕ → ℕ → ℕ → Type 0
InRect x y w h px py = InSpan x w px × InSpan y h py

-- Each pixel of the screen is the one that is shown, or dirty.
abbrev pub Tracks : (ℕ → ℕ → ℕ) → Screen → Type 0
Tracks shown s =
    (x y : ℕ)
    → x < screen_width
    → y < screen_height
    → (at s x y ≡ shown x y) ⊎ Dirty x y s.dirty_region

-- What drawing gives on a screen that tracks: no panic; an answer leaves a screen that tracks, with a
-- region within it, and only a failed read of the guest's memory does not answer.
pub data Tracked {A : Type 0} (shown : ℕ → ℕ → ℕ) : Result DrawError A × Screen → Type 0 where
  tracked :
      {a : A} {s : Screen} → InScreen s.dirty_region → Tracks shown s → Tracked shown (ok a, s)
  not_read :
      {e : MemoryAccessError} {s : Screen}
      → InScreen s.dirty_region
      → Tracked shown (err (unreadable e), s)

module _ {shown : ℕ → ℕ → ℕ} (x y : ℤ) (w h : ℕ) where
  Marked-Tracks :
      {s t u : Screen}
      → Tracks shown s
      → Leaves (InRect x y w h) s t
      → Marked x y w h t u
      → Tracks shown u
  Marked-Tracks {s} {t} {u} track leaves m px py hx hy =
      cases (track px py hx hy) (leaves.pixels px py hx hy)
    where
      same : at u px py ≡ at t px py
      same = ap (λ b. b (py * screen_width + px)) m.same

      kept : Dirty px py s.dirty_region → Dirty px py u.dirty_region
      kept d = m.kept px py (coe 1 0 (k. Dirty px py (leaves.dirty k)) d)

      cases :
          (at s px py ≡ shown px py) ⊎ Dirty px py s.dirty_region
          → (at t px py ≡ at s px py) ⊎ InRect x y w h px py
          → (at u px py ≡ shown px py) ⊎ Dirty px py u.dirty_region
      cases (inr d) _ = inr (kept d)
      cases (inl p) (inl q) = inl (same ∙ q ∙ p)
      cases (inl p) (inr (cx, cy)) = inr (m.marked px py hx hy cx cy)

  pub mark_after :
      {s : Screen}
      → InScreen s.dirty_region
      → Tracks shown s
      → (r : Result DrawError (Unit {0}) × Screen) → Drawn (InRect x y w h) s r
      → Tracked {A = Unit {0}} shown (and_then r (λ _. modify (mark_dirty_region x y w h)))
  mark_after {s} i track _ (failed {e} {t} l) = not_read (coe 1 0 (k. InScreen (l.dirty k)) i)
  mark_after {s} i track _ (drawn {a} {t} l) =
      let m = mark_dirty_region-Marked x y w h t (coe 1 0 (k. InScreen (l.dirty k)) i) in
      tracked m.bounded (Marked-Tracks {s = s} {t = t} track l m)

  -- Drawing within a rectangle that is marked afterwards.
  pub mark-Tracked :
      (m : Draw (Unit {0})) (s : Screen)
      → Draws (InRect x y w h) m
      → InScreen s.dirty_region
      → Tracks shown s
      → Tracked shown ((m >> modify (mark_dirty_region x y w h)) s)
  mark-Tracked m s d i track = mark_after i track (m s) (d s)

pub on_screen :
    (x y : ℤ)
    → off_screen x y ≡ false
    → (neg_part x ≡ 0)
      × (pos_part x < screen_width)
      × (neg_part y ≡ 0)
      × (pos_part y < screen_height)
on_screen x y h = ground arith

-- A pixel in a rectangle, by its offset there.
pub span :
    (x : ℤ) (i w n : ℕ)
    → IsI32 x
    → i < w
    → w ≤ 2 ^ 16
    → neg_part (add_i32 x (pos i)) ≡ 0
    → pos_part (add_i32 x (pos i)) ≡ n
    → n < 2 ^ 16
    → InSpan x w n
span x i w n v hi hw p q hn = ground arith

module _ (shown : ℕ → ℕ → ℕ) (s : Screen) (i : InScreen s.dirty_region)
    (track : Tracks shown s) where
  pub plot_screen_pixel-Tracked :
      (x y : ℤ) (color : ℕ) → Tracked shown (plot_screen_pixel x y color s)
  unfolding plot_screen_pixel
  plot_screen_pixel-Tracked x y color =
      elim (off_screen x y)
          as (λ t.
            off_screen x y ≡ t
            → Tracked {A = Unit {0}} shown (
                (if t
                    then pure tt
                    else (write_pixel (pixel_index x y) color
                        >> modify (mark_dirty_region x y 1 1)))
                  s)) [
                    | true ↦ λ p. tracked i track
                    | false ↦ λ p.
                        let (nx, lx, ny, ly) = on_screen x y p in
                        mark-Tracked x y 1 1 (write_pixel (pixel_index x y) color) s
                          (write_pixel-Draws {R = InRect x y 1 1} (pos_part x) (pos_part y) color lx
                            ly ((omega arith, omega arith), (omega arith, omega arith)))
                          i track
                  ]
        refl

  pub fill_screen_rect-Tracked :
      (x y w h : ℤ) (color : ℕ) → Tracked shown (fill_screen_rect x y w h color s)
  unfolding fill_screen_rect
  fill_screen_rect-Tracked x y w h color =
      let x0 = pos_part x in
      let y0 = pos_part y in
      let x1 = clamp screen_width (add_i32 x w) in
      let y1 = clamp screen_height (add_i32 y h) in
      elim (leb x1 x0 || leb y1 y0)
        as (λ t. Tracked {A = Unit {0}} shown (
          (if t
              then pure tt
              else (for_range y0 (y1 - y0) (λ yy.
                    for_range x0 (x1 - x0) (λ xx. write_pixel (yy * screen_width + xx) color))
                  >> modify (mark_dirty_region (pos x0) (pos y0) (x1 - x0) (y1 - y0))))
            s)) [
              | true ↦ tracked i track
              | false ↦
                  mark-Tracked (pos x0) (pos y0) (x1 - x0) (y1 - y0) _ s
                    (for_range-Draws y0 (y1 - y0) _ (λ yy a b.
                      for_range-Draws x0 (x1 - x0) _ (λ xx c d.
                        write_pixel-Draws {R = InRect (pos x0) (pos y0) (x1 - x0) (y1 - y0)} xx yy
                          color (omega arith) (omega arith)
                          ((omega arith, omega arith), (omega arith, omega arith)))))
                    i track
            ]
