-- ===== src/Screen/Present.antt =====
-- apps/vmrp-windows: the copy of a region of the screen to the pixels of the window, four bytes for a
-- pixel (`copy_rgb565_region_to_bgra` of src/presenter.rs), and the part of `drain_host_ui` of
-- src/main.rs that takes the dirty region and presents it.
pub mod Copied
pub mod Frames
pub mod Runs
use vmrp_rust.Prelude.{
  ℕ, ◌+◌, ◌-◌, ◌*◌, ◌/◌, ◌%◌, ◌^◌, ◌||◌, Option, none, some, bit_and, ltb, leb, if◌then◌else◌,
}
use vmrp_rust.Prelude.Int.{ℤ, pos, pos_part, add_i32}
use vmrp_rust.Prelude.Result.{Result, ok, err}
use vmrp_rust.Prelude.State.{Stateful, pure, for_range, ◌>>=◌, ◌>>◌}
use vmrp_rust.Cpu.Memory.{update}
use vmrp_rust.Screen.{
  Screen, HostScreenRegion, screen_width, screen_height, clamp, take_dirty_region,
}

pub record DirtyRect : Type 0 where
  pub x : ℤ
  pub y : ℤ
  pub w : ℕ
  pub h : ℕ

-- A vector of fixed length: `item i` counts for `i < len` only.
pub record Buffer : Type 0 where
  pub len : ℕ
  pub item : ℕ → ℕ

-- An index out of range.
pub data Panic : Type 0 where
  panicked : Panic

abbrev pub Copy : Type 0 → Type 0
Copy A = Stateful Buffer Panic A

-- `source[index]`.
unfoldable pub read_source : Buffer → ℕ → Copy ℕ
read_source source index dest =
    if ltb index source.len then (ok (source.item index), dest) else (err panicked, dest)

-- `dest[index] = byte`.
unfoldable pub write_dest : ℕ → ℕ → Copy (Unit {0})
write_dest index byte dest =
    if ltb index dest.len
    then (ok tt, record dest { item = update dest.item index byte })
    else (err panicked, dest)

-- The blue, the green and the red of a pixel.
abbrev pub blue : ℕ → ℕ
blue src = bit_and src 0x1F * 2 ^ 3 % 2 ^ 8

abbrev pub green : ℕ → ℕ
green src = bit_and (src / 2 ^ 5) 0x3F * 2 ^ 2 % 2 ^ 8

abbrev pub red : ℕ → ℕ
red src = bit_and (src / 2 ^ 11) 0x1F * 2 ^ 3 % 2 ^ 8

unfoldable pub copy_pixel : Buffer → ℕ → Copy (Unit {0})
unfolding read_source write_dest
copy_pixel source index = do
  src ← read_source source index
  write_dest (index * 4) (blue src)
  write_dest (index * 4 + 1) (green src)
  write_dest (index * 4 + 2) (red src)
  write_dest (index * 4 + 3) 0xFF

-- A width and a height below 2 ^ 31, so that `as i32` keeps them.
unfoldable pub copy_rgb565_region_to_bgra : Buffer → ℕ → ℕ → DirtyRect → Copy (Unit {0})
unfolding copy_pixel
copy_rgb565_region_to_bgra source width height rect =
    let x0 = pos_part rect.x in
    let y0 = pos_part rect.y in
    let x1 = clamp width (add_i32 rect.x (pos rect.w)) in
    let y1 = clamp height (add_i32 rect.y (pos rect.h)) in
    if leb x1 x0 || leb y1 y0
    then pure tt
    else for_range y0 (y1 - y0)
        (λ y. for_range x0 (x1 - x0) (λ x. copy_pixel source (y * width + x)))

abbrev pub to_presenter_rect : HostScreenRegion → DirtyRect
to_presenter_rect region = record { x = region.x; y = region.y; w = region.w; h = region.h }

-- The buffer that `screen_buffer` lends.
abbrev pub screen_pixels : Screen → Buffer
screen_pixels s = record { len = screen_width * screen_height; item = s.screen_buffer }

-- A region of the host, if there is one, is presented by a window that is open.
abbrev pub present_region :
    Buffer → Option HostScreenRegion → Screen → Result Panic (Unit {0}) × Buffer
present_region window none s = (ok tt, window)
present_region window (some region) s =
    copy_rgb565_region_to_bgra (screen_pixels s) screen_width screen_height
      (to_presenter_rect region) window

-- The dirty region is taken from the host, and presented.
unfoldable pub present_dirty : Screen → Buffer → (Result Panic (Unit {0}) × Buffer) × Screen
unfolding take_dirty_region copy_rgb565_region_to_bgra
present_dirty s window =
    let (region, taken) = take_dirty_region s in (present_region window region taken, taken)
