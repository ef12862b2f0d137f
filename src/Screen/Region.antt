-- ===== src/Screen/Region.antt =====
-- The dirty region of the screen (`mark_dirty_region` of crates/vmrp-platform/src/lib.rs): it stays
-- within the screen and has room for what was in it and for what is marked.
use vmrp_rust.Prelude.{
  ℕ, ◌+◌, ◌-◌, ◌≤◌, ◌<◌, ◌^◌, ◌≡◌, refl, inl, inr, Option, none, some, arith, min, max, leb, ◌||◌,
  Bool-cases,
}
use vmrp_rust.Prelude.Int.{
  ℤ, pos, negsuc, pos_part, neg_part, saturating_add_i32, min_ℤ, max_ℤ, wrap_i32, as_u16, ◌-ℤ◌,
}
use vmrp_rust.Prelude.Int.Sums.{add_i32-pos}
use vmrp_rust.Screen.{
  Screen, HostScreenRegion, screen_width, screen_height, clamp, join, merged, mark_dirty_region,
}

-- A number is in the range of a length from a start.
abbrev pub InSpan : ℤ → ℕ → ℕ → Type 0
InSpan x w n = (pos_part x ≤ n + neg_part x) × (n + neg_part x < pos_part x + w)

abbrev pub Covers : HostScreenRegion → ℕ → ℕ → Type 0
Covers r x y = InSpan r.x r.w x × InSpan r.y r.h y

-- A region covers nothing until there is one.
pub data Dirty (x y : ℕ) : Option HostScreenRegion → Type 0 where
  dirty : {r : HostScreenRegion} → Covers r x y → Dirty x y (some r)

-- A range that starts at 0 or later, and ends at `high` or before.
abbrev Bounded : ℕ → ℤ → ℕ → Type 0
Bounded high x w = (neg_part x ≡ 0) × (pos_part x + w ≤ high)

pub data InScreen : Option HostScreenRegion → Type 0 where
  clean : InScreen none
  within :
      {r : HostScreenRegion}
      → Bounded screen_width r.x r.w
      → Bounded screen_height r.y r.h
      → InScreen (some r)

min_ℤ-pos : (a b : ℕ) → min_ℤ (pos a) (pos b) ≡ pos (min a b)
min_ℤ-pos a b = ground arith

max_ℤ-pos : (a b : ℕ) → max_ℤ (pos a) (pos b) ≡ pos (max a b)
max_ℤ-pos a b = ground arith

sub_i32-pos : (a b : ℕ) → b ≤ a → a < 2 ^ 16 → as_u16 (wrap_i32 (pos a -ℤ pos b)) ≡ a - b
sub_i32-pos a b h k = ground arith

-- The union of two ranges of naturals.
join-pos :
    (x w nx nw : ℕ)
    → x + w < 2 ^ 16
    → nx + nw < 2 ^ 16
    → join (pos x) w (pos nx) nw ≡ (pos (min x nx), max (x + w) (nx + nw) - min x nx)
unfolding join
join-pos x w nx nw h k =
    rw
      (
        add_i32-pos x w (omega arith),
        add_i32-pos nx nw (omega arith),
        min_ℤ-pos x nx,
        max_ℤ-pos (x + w) (nx + nw),
        sub_i32-pos (max (x + w) (nx + nw)) (min x nx) (omega arith) (omega arith),
      )
      refl

-- A union has room for both ranges, within their bound.
record Joins (high : ℕ) (x : ℤ) (w nx nw : ℕ) (r : ℤ × ℕ) : Type 0 where
  bounded : Bounded high (r.0) (r.1)
  old : (n : ℕ) → InSpan x w n → InSpan (r.0) (r.1) n
  new_range : (n : ℕ) → InSpan (pos nx) nw n → InSpan (r.0) (r.1) n

join-Joins :
    (high : ℕ) (x : ℤ) (w nx nw : ℕ)
    → high < 2 ^ 16
    → Bounded high x w
    → nx + nw ≤ high
    → Joins high x w nx nw (join x w (pos nx) nw)
join-Joins high (negsuc x) w nx nw hh b k = absurd (omega arith)
join-Joins high (pos x) w nx nw hh b k =
    rw (join-pos x w nx nw (omega arith) (omega arith)) (record {
      bounded = (omega arith, omega arith);
      old = λ n h. (omega arith, omega arith);
      new_range = λ n h. (omega arith, omega arith);
    })

record Merges (next : HostScreenRegion) (old : Option HostScreenRegion) (r : HostScreenRegion)
    : Type 0 where
  bounded : InScreen (some r)
  kept : (x y : ℕ) → Dirty x y old → Dirty x y (some r)
  added : (x y : ℕ) → Covers next x y → Dirty x y (some r)

abbrev region : ℕ → ℕ → ℕ → ℕ → HostScreenRegion
region x y w h = record { x = pos x; y = pos y; w = w; h = h }

merged-Merges :
    (nx ny nw nh : ℕ) (old : Option HostScreenRegion)
    → nx + nw ≤ screen_width
    → ny + nh ≤ screen_height
    → InScreen old
    → Merges (region nx ny nw nh) old (merged (region nx ny nw nh) old)
unfolding merged
merged-Merges nx ny nw nh _ hx hy clean = record {
  bounded = within (omega arith, omega arith) (omega arith, omega arith);
  kept = λ x y d. elim d [ ];
  added = λ x y c. dirty c;
}
merged-Merges nx ny nw nh _ hx hy (within {r} bx by) =
    let across = join-Joins screen_width r.x r.w nx nw (omega arith) bx hx in
    let down = join-Joins screen_height r.y r.h ny nh (omega arith) by hy in
    record {
      bounded = within across.bounded down.bounded;
      kept = λ x y d. elim d [ dirty c ↦ dirty (across.old x (c.0), down.old y (c.1)) ];
      added = λ x y c. dirty (across.new_range x (c.0), down.new_range y (c.1));
    }

-- What marking a rectangle leaves.
pub record Marked (x y : ℤ) (w h : ℕ) (s t : Screen) : Type 0 where
  pub same : t.screen_buffer ≡ s.screen_buffer
  pub bounded : InScreen t.dirty_region
  pub kept : (px py : ℕ) → Dirty px py s.dirty_region → Dirty px py t.dirty_region
  pub marked :
      (px py : ℕ)
      → px < screen_width
      → py < screen_height
      → InSpan x w px
      → InSpan y h py
      → Dirty px py t.dirty_region

-- A rectangle, whose part on the screen is not empty, and the part is marked.
clipped :
    (high w n : ℕ) (x : ℤ)
    → high < 2 ^ 16
    → n < high
    → InSpan x w n
    → (clamp high x ≤ n) × (n < clamp high (saturating_add_i32 x (pos w)))
clipped high w n x hh hn h = ground arith

-- Marking any rectangle, on the screen or not, keeps the dirty region within the screen; the region
-- then covers what it covered before and each pixel of the screen that is in the rectangle.
pub mark_dirty_region-Marked :
    (x y : ℤ) (w h : ℕ) (s : Screen)
    → InScreen s.dirty_region
    → Marked x y w h s (mark_dirty_region x y w h s)
unfolding mark_dirty_region
mark_dirty_region-Marked x y w h s i =
    let x0 = clamp screen_width x in
    let y0 = clamp screen_height y in
    let x1 = clamp screen_width (saturating_add_i32 x (pos w)) in
    let y1 = clamp screen_height (saturating_add_i32 y (pos h)) in
    elim (Bool-cases (leb x1 x0 || leb y1 y0)) [
      | inl p ↦ rw p (record {
        same = refl;
        bounded = i;
        kept = λ px py d. d;
        marked = λ px py hx hy cx cy.
            let a = clipped screen_width w px x (omega arith) hx cx in
            let b = clipped screen_height h py y (omega arith) hy cy in absurd (ground arith);
      })
      | inr p ↦
          let m =
            merged-Merges x0 y0 (x1 - x0) (y1 - y0) s.dirty_region (ground arith) (ground arith)
              i in
          rw p (record {
            same = refl;
            bounded = m.bounded;
            kept = m.kept;
            marked = λ px py hx hy cx cy.
                let a = clipped screen_width w px x (omega arith) hx cx in
                let b = clipped screen_height h py y (omega arith) hy cy in
                m.added px py ((omega arith, omega arith), (omega arith, omega arith));
          })
    ]
