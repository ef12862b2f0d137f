-- ===== src/Screen/Present/Frames.antt =====
-- One presentation of the screen (crates/vmrp-platform/src/lib.rs) in the window (apps/vmrp-windows).
use vmrp_rust.Prelude.{
  ℕ, ◌+◌, ◌≤◌, ◌<◌, ◌^◌, ◌≡◌, refl, sym, ap, ◌∙◌, ◌⊎◌, inl, inr, true, false, Option, none, some,
  take, arith, if◌then◌else◌,
}
use vmrp_rust.Prelude.Int.{ℤ, pos, pos_part, neg_part, add_i32}
use vmrp_rust.Prelude.Result.{Result, ok}
use vmrp_rust.Screen.{Screen, HostScreenRegion, screen_width, screen_height, clamp}
use vmrp_rust.Screen.Draws.{at, in_area}
use vmrp_rust.Screen.Region.{InSpan, Dirty, dirty, InScreen, within}
use vmrp_rust.Screen.Tracks.{Tracks}
use vmrp_rust.Screen.Present.{
  Buffer, Panic, screen_pixels, to_presenter_rect, present_region, present_dirty,
}
use vmrp_rust.Screen.Present.Copied.{
  HasRoom, bgra, window_at, in_rect, copy_rgb565_region_to_bgra-Copied,
}

-- The blue, the green and the red of each pixel in the window are those of the pixel that is shown.
abbrev pub Shows : Buffer → (ℕ → ℕ → ℕ) → Type 0
Shows b shown =
    (x y : ℕ)
    → x < screen_width
    → y < screen_height
    → take 3 (window_at b x y) ≡ take 3 (bgra (shown x y))

-- A part of a region on the screen, by its ends there.
inside :
    (high w n : ℕ) (x : ℤ)
    → high < 2 ^ 16
    → n < high
    → neg_part x ≡ 0
    → pos_part x + w ≤ high
    → InSpan x w n
    → (pos_part x ≤ n) × (n < clamp high (add_i32 x (pos w)))
inside high w n x hh hn p q h = ground arith

in_rect-Dirty :
    (x y : ℕ) (r : HostScreenRegion)
    → x < screen_width
    → y < screen_height
    → InScreen (some r)
    → Dirty x y (some r)
    → in_rect (to_presenter_rect r) x y ≡ true
in_rect-Dirty x y _ hx hy (within {r} (a, b) (c, d)) (dirty (cx, cy)) =
    let (p, q) = inside screen_width r.w x r.x (omega arith) hx a b cx in
    let (u, v) = inside screen_height r.h y r.y (omega arith) hy c d cy in
    all_four (pos_part r.x) (clamp screen_width (add_i32 r.x (pos r.w))) (pos_part r.y)
      (clamp screen_height (add_i32 r.y (pos r.h))) p q u v
  where
    all_four :
        (x0 x1 y0 y1 : ℕ) → x0 ≤ x → x < x1 → y0 ≤ y → y < y1 → in_area x0 x1 y0 y1 x y ≡ true
    all_four x0 x1 y0 y1 p q u v = ground arith

-- A presentation that returns, with what it leaves.
pub data Presented (s : Screen) (b : Buffer)
    : (Result Panic (Unit {0}) × Buffer) × Screen → Type 0 where
  presented :
      {c : Buffer} {t : Screen}
      → Shows c (at s)
      → HasRoom c
      → t ≡ record s { dirty_region = none }
      → Presented s b ((ok tt, c), t)

module _ (s : Screen) (b : Buffer) (shown : ℕ → ℕ → ℕ) (room : HasRoom b)
    (shows : Shows b shown) where
  pixel :
      (c : Buffer) (r : HostScreenRegion) (x y : ℕ)
      → InScreen (some r)
      → x < screen_width
      → y < screen_height
      → window_at c x y
        ≡ (if in_rect (to_presenter_rect r) x y then bgra (at s x y) else window_at b x y)
      → (at s x y ≡ shown x y) ⊎ Dirty x y (some r)
      → take 3 (window_at c x y) ≡ take 3 (bgra (at s x y))
  pixel c r x y i hx hy p (inr d) =
      let inner = in_rect-Dirty x y r hx hy i d in
      ap (take 3)
        (coe 0 1 (k. window_at c x y ≡ (if inner k then bgra (at s x y) else window_at b x y)) p)
  pixel c r x y i hx hy p (inl q) =
      elim (in_rect (to_presenter_rect r) x y)
          as (λ t.
            window_at c x y ≡ (if t then bgra (at s x y) else window_at b x y)
            → take 3 (window_at c x y) ≡ take 3 (bgra (at s x y))) [
              | true ↦ λ e. ap (take 3) e
              | false ↦ λ e. ap (take 3) e ∙ shows x y hx hy ∙ ap (λ v. take 3 (bgra v)) (sym q)
            ]
        p

  clean_pixel :
      (x y : ℕ)
      → x < screen_width
      → y < screen_height
      → (at s x y ≡ shown x y) ⊎ Dirty x y none
      → take 3 (window_at b x y) ≡ take 3 (bgra (at s x y))
  clean_pixel x y hx hy (inl p) = shows x y hx hy ∙ ap (λ v. take 3 (bgra v)) (sym p)
  clean_pixel x y hx hy (inr d) = elim d [ ]

  -- Whatever is dirty or not, the presentation returns, and the window shows the screen.
  pub present_dirty-Presented :
      InScreen s.dirty_region → Tracks shown s → Presented s b (present_dirty s b)
  unfolding present_dirty
  present_dirty-Presented i track = cases s.dirty_region i track
    where
      cases :
          (o : Option HostScreenRegion)
          → InScreen o
          → ((x y : ℕ)
              → x < screen_width
              → y < screen_height
              → (at s x y ≡ shown x y) ⊎ Dirty x y o)
          → Presented s b (
            present_region b o (record s { dirty_region = none }),
            record s { dirty_region = none },
          )
      cases none i f =
          presented {c = b} (λ x y hx hy. clean_pixel x y hx hy (f x y hx hy)) room refl
      cases (some r) i f =
          let copied =
            copy_rgb565_region_to_bgra-Copied (screen_pixels s) (omega arith) (to_presenter_rect r)
              b room in
          rw copied.returns (
            presented {c = copied.out}
              (λ x y hx hy. pixel copied.out r x y i hx hy (copied.pixels x y hx hy) (f x y hx hy))
              (omega (arith, copied.len)) refl)
