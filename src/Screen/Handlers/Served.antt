-- ===== src/Screen/Handlers/Served.antt =====
-- The drawing services of crates/vmrp-platform/src/lib.rs, for any registers and memory: the dirty region
-- stays within the screen and covers what the window does not show.
use vmrp_rust.Prelude.{ℕ, ◌%◌, ◌^◌, arith}
use vmrp_rust.Prelude.Int.{as_i32}
use vmrp_rust.Prelude.Result.{Result, ok, err}
use vmrp_rust.Prelude.State.{and_then, ◌>>=◌, ◌>>◌}
use vmrp_rust.Word.{add32}
use vmrp_rust.Cpu.Memory.{MemoryAccessError, MemoryBus}
use vmrp_rust.Cpu.Regs.{sp_index}
use vmrp_rust.Screen.{Screen, Draw, DrawError, unreadable}
use vmrp_rust.Screen.Region.{InScreen}
use vmrp_rust.Screen.Tracks.{
  IsI32, Tracks, Tracked, tracked, not_read, plot_screen_pixel-Tracked, fill_screen_rect-Tracked,
}
use vmrp_rust.Screen.Handlers.{
  Console, Service, rgb888_to_rgb565, as_i16, arg, load32, load16, of_access, on_memory,
  with_screen, return_with, handle_legacy_draw_point, handle_legacy_draw_rect,
}
use vmrp_rust.Screen.Handlers.Reads
use vmrp_rust.Screen.Handlers.Reads.{Got, got, Reads, Any}

-- An answer with a property and a screen that tracks, or a failed read; the region is within the
-- screen, and nothing panics.
pub data Served {M A : Type 0} (P : A → Type 0) (shown : ℕ → ℕ → ℕ)
    : Result DrawError A × Console M → Type 0 where
  served :
      {a : A} {c : Console M}
      → P a
      → InScreen c.screen.dirty_region
      → Tracks shown c.screen
      → Served P shown (ok a, c)
  refused :
      {e : MemoryAccessError} {c : Console M}
      → InScreen c.screen.dirty_region
      → Served P shown (err (unreadable e), c)

abbrev pub Serves : {M A : Type 0} → (A → Type 0) → Service M A → Type 0
Serves {M} P m =
    (shown : ℕ → ℕ → ℕ) (c : Console M)
    → InScreen c.screen.dirty_region
    → Tracks shown c.screen
    → Served P shown (m c)

module _ {M A B : Type 0} {P : A → Type 0} {Q : B → Type 0} where
  and_then-Served :
      {shown : ℕ → ℕ → ℕ} (x : Result DrawError A × Console M) (f : A → Service M B)
      → Served P shown x
      → ((a : A) → P a → Serves Q (f a))
      → Served Q shown (and_then x f)
  and_then-Served {shown} _ f (served {a} {c} p i t) k = k a p shown c i t
  and_then-Served _ f (refused i) k = refused i

  pub bind-Serves :
      (m : Service M A) (f : A → Service M B)
      → Serves P m
      → ((a : A) → P a → Serves Q (f a))
      → Serves Q (m >>= f)
  bind-Serves m f h k shown c i t = and_then-Served (m c) f (h shown c i t) k

-- Reading, and then drawing with what was read.
pub reads_then_draws :
    {A B : Type 0} {P : A → Type 0} (m : Draw A) (f : A → Draw B) (shown : ℕ → ℕ → ℕ) (s : Screen)
    → InScreen s.dirty_region
    → Reads P m
    → ((a : A) → P a → Tracked shown (f a s))
    → Tracked shown ((m >>= f) s)
reads_then_draws {A = A} {P = P} m f shown s i h k = cases (m s) (h s)
  where
    cases : (x : Result DrawError A × Screen) → Got P s x → Tracked shown (and_then x f)
    cases _ (got {a} p) = k a p
    cases _ Reads.not_read = not_read i

pub as_i16-IsI32 : (a : ℕ) → IsI32 (as_i16 a)
as_i16-IsI32 a = ground arith

pub as_i32-IsI32 : (a : ℕ) → IsI32 (as_i32 a)
as_i32-IsI32 a = ground arith

module _ {M : Type 0} ⦃bus : MemoryBus M⦄ where
  pub arg-Serves : (index : ℕ) → Serves {M = M} Any (arg index)
  arg-Serves index shown c i t = served tt i t

  pub access-Serves :
      {A : Type 0} (shown : ℕ → ℕ → ℕ) (c : Console M) (r : Result MemoryAccessError A)
      → InScreen c.screen.dirty_region
      → Tracks shown c.screen
      → Served Any shown (of_access r c)
  access-Serves shown c (ok a) i t = served tt i t
  access-Serves shown c (err e) i t = refused i

  pub load32-Serves : (addr : ℕ) → Serves {M = M} Any (load32 addr)
  load32-Serves addr shown c i t = access-Serves shown c (bus.read32 c.host.memory addr) i t

  pub load16-Serves : (addr : ℕ) → Serves {M = M} Any (load16 addr)
  load16-Serves addr shown c i t = access-Serves shown c (bus.read16 c.host.memory addr) i t

  pub return_with-Serves : (out : ℕ) → Serves {M = M} Any (return_with out)
  unfolding return_with
  return_with-Serves out shown c i t = served tt i t

  pub Tracked-Served :
      {A : Type 0} {shown : ℕ → ℕ → ℕ} (c : Console M) (x : Result DrawError A × Screen)
      → Tracked shown x
      → Served Any shown (with_screen x c)
  Tracked-Served c _ (tracked i t) = served tt i t
  Tracked-Served c _ (not_read i) = refused i

  -- A service that draws, and the return to the guest.
  pub draw_and_return :
      (f : M → Draw (Unit {0})) (out : ℕ)
      → ((shown : ℕ → ℕ → ℕ) (c : Console M)
          → InScreen c.screen.dirty_region
          → Tracks shown c.screen
          → Tracked shown (f c.host.memory c.screen))
      → Serves {M = M} Any (on_memory f >> return_with out)
  draw_and_return f out h =
      bind-Serves {P = Any} (on_memory f) (λ _. return_with out)
        (λ shown c i t. Tracked-Served c _ (h shown c i t)) (λ _ _. return_with-Serves out)

  pub Got-Served :
      {shown : ℕ → ℕ → ℕ} (c : Console M) (x : Result DrawError ℕ × Screen)
      → InScreen c.screen.dirty_region
      → Tracks shown c.screen
      → Got Any c.screen x
      → Served Any shown (with_screen x c)
  Got-Served c _ i t (got p) = served tt i t
  Got-Served c _ i t Reads.not_read = refused i

  pub handle_legacy_draw_point-Serves : Serves {M = M} Any handle_legacy_draw_point
  unfolding handle_legacy_draw_point
  handle_legacy_draw_point-Serves = bind-Serves _ _ (arg-Serves 0) (λ x _.
      bind-Serves _ _ (arg-Serves 1) (λ y _. bind-Serves _ _ (arg-Serves 2) (λ color _.
        draw_and_return _ 0 (λ shown c i t.
          plot_screen_pixel-Tracked shown c.screen i t (as_i32 x) (as_i32 y) (color % 2 ^ 16)))))

  pub handle_legacy_draw_rect-Serves : Serves {M = M} Any handle_legacy_draw_rect
  unfolding handle_legacy_draw_rect
  handle_legacy_draw_rect-Serves = bind-Serves _ _ (arg-Serves 0) (λ x _.
      bind-Serves _ _ (arg-Serves 1) (λ y _. bind-Serves _ _ (arg-Serves 2) (λ w _.
        bind-Serves _ _ (arg-Serves 3) (λ h _. bind-Serves _ _ (arg-Serves sp_index) (λ sp _.
          bind-Serves _ _ (load32-Serves sp) (λ r _.
            bind-Serves _ _ (load32-Serves (add32 sp 4)) (λ g _.
              bind-Serves _ _ (load32-Serves (add32 sp 8)) (λ b _.
                draw_and_return _ 0 (λ shown c i t.
                  fill_screen_rect-Tracked shown c.screen i t (as_i32 x) (as_i32 y) (as_i32 w)
                    (as_i32 h) (rgb888_to_rgb565 (r % 2 ^ 8) (g % 2 ^ 8) (b % 2 ^ 8)))))))))))
