-- ===== src/Screen/Tests.antt =====
-- Drawing on a concrete screen, and the theorems at concrete inputs.
use vmrp_rust.Prelude.{◌≡◌, refl, inl, none, some, [], arith}
use vmrp_rust.Prelude.Int.{pos, negsuc}
use vmrp_rust.Prelude.Result.{ok}
use vmrp_rust.Cpu.Memory.{TestMemory, test_memory_bus, read16, offset_for}
use vmrp_rust.Screen.{
  Screen, mark_dirty_region, plot_screen_pixel, fill_screen_rect, draw_bitmap, screen_width,
  screen_height,
}
use vmrp_rust.Screen.Draws.{in_area}
use vmrp_rust.Screen.Fill.{Painted, fill_screen_rect-Painted}
use vmrp_rust.Screen.Region.{clean, within, Marked, mark_dirty_region-Marked}
use vmrp_rust.Screen.Replaced.{Replaced, draw_bitmap-Replaced}
use vmrp_rust.Screen.Handlers.{Console}
use vmrp_rust.Screen.Handlers.All.{draw_point, serve, serve-Served}
use vmrp_rust.Screen.Handlers.Reads.{Any}
use vmrp_rust.Screen.Handlers.Served.{Served}
use vmrp_rust.Screen.Present.{Buffer, screen_pixels, copy_rgb565_region_to_bgra, present_dirty}
use vmrp_rust.Screen.Present.Copied.{Copied, in_rect, copy_rgb565_region_to_bgra-Copied}
use vmrp_rust.Screen.Present.Frames.{Presented}
use vmrp_rust.Screen.Present.Runs.{draw, plot, start, drew, Reached-Presented}

abbrev black : Screen
black = record { screen_buffer = λ _. 0; dirty_region = none }

abbrev window : Buffer
window = record { len = 307200; item = λ _. 0 }

-- A dirty region in the middle of the screen.
abbrev used : Screen
used = record {
  screen_buffer = λ _. 0;
  dirty_region = some (record { x = pos 10; y = pos 20; w = 5; h = 5 });
}

-- Pixels of color 7 at 0x100.
abbrev memory : TestMemory
memory = record { base = 0x100; len = 16; byte = λ i. 7 }

abbrev console : Console TestMemory
console = record {
  host = record {
    heap = record { heap_blocks = []; memory_manager_min_free = 0; memory_manager_peak_used = 0 };
    ext_allocations = [];
    mr_table_addr = 0x100;
    memory = memory;
    regs = record { regs = λ i. i; cpsr = record { bits = 0x10 } };
  };
  screen = black;
}

-- The marked rectangle is clipped on the left, and joined with what was dirty.
mark-used :
    mark_dirty_region (negsuc 2) (pos 22) 4 1 used
    ≡ record used { dirty_region = some (record { x = pos 0; y = pos 20; w = 15; h = 5 }) }
unfolding mark_dirty_region
mark-used = refl

-- A width that leaves i32 when it is added paints nothing.
fill-wrapped : fill_screen_rect (pos 10) (pos 0) (pos 0x7fff_ffff) (pos 4) 7 black ≡ (ok tt, black)
unfolding fill_screen_rect
fill-wrapped = refl

plot-dirty :
    ((plot_screen_pixel (pos 3) (pos 4) 7 black).1).dirty_region
    ≡ some (record { x = pos 3; y = pos 4; w = 1; h = 1 })
unfolding plot_screen_pixel
plot-dirty = refl

-- What was dirty is lost to a bitmap elsewhere.
draw_bitmap-used :
    ((draw_bitmap memory 0x100 (negsuc 0) (pos 0) 2 1 used).1).dirty_region
    ≡ some (record { x = negsuc 0; y = pos 0; w = 2; h = 1 })
unfolding draw_bitmap read16 offset_for
draw_bitmap-used = refl

mark_dirty_region-Marked_example :
    Marked (negsuc 2) (pos 22) 4 1 used (mark_dirty_region (negsuc 2) (pos 22) 4 1 used)
mark_dirty_region-Marked_example =
    mark_dirty_region-Marked (negsuc 2) (pos 22) 4 1 used
      (within (omega arith, omega arith) (omega arith, omega arith))

fill_screen_rect-Painted_example :
    Painted (in_area 0 3 5 7) 9 black (fill_screen_rect (negsuc 1) (pos 5) (pos 5) (pos 2) 9 black)
fill_screen_rect-Painted_example =
    fill_screen_rect-Painted 9 (negsuc 1) (pos 5) (pos 5) (pos 2) black

draw_bitmap-Replaced_example :
    Replaced (negsuc 0) (pos 0) 2 1 used (draw_bitmap memory 0x100 (negsuc 0) (pos 0) 2 1 used)
draw_bitmap-Replaced_example =
    draw_bitmap-Replaced memory 0x100 (negsuc 0) (pos 0) 2 1 used (omega arith, omega arith)
      (omega arith, omega arith) (omega arith) (omega arith)

serve-Served_example : Served Any (λ x y. 0) (serve draw_point console)
serve-Served_example = serve-Served draw_point (λ x y. 0) console clean (λ x y hx hy. inl refl)

copy_rgb565_region_to_bgra-Copied_example :
    Copied
      (in_rect (record { x = negsuc 0; y = pos 2; w = 3; h = 4 }))
      (screen_pixels used)
      window
      (copy_rgb565_region_to_bgra
        (screen_pixels used)
        screen_width
        screen_height
        (record { x = negsuc 0; y = pos 2; w = 3; h = 4 })
        window)
copy_rgb565_region_to_bgra-Copied_example =
    copy_rgb565_region_to_bgra-Copied (screen_pixels used) (omega arith)
      (record { x = negsuc 0; y = pos 2; w = 3; h = 4 }) window (omega arith)

plotted :
    draw {M = TestMemory} (plot (pos 3) (pos 4) 7) black
    ≡ (ok tt, (draw {M = TestMemory} (plot (pos 3) (pos 4) 7) black).1)
unfolding draw plot_screen_pixel
plotted = refl

Reached-Presented_example :
    Presented
      ((draw {M = TestMemory} (plot (pos 3) (pos 4) 7) black).1)
      window
      (present_dirty ((draw {M = TestMemory} (plot (pos 3) (pos 4) 7) black).1) window)
Reached-Presented_example =
    Reached-Presented {M = TestMemory} ((draw {M = TestMemory} (plot (pos 3) (pos 4) 7) black).1)
      window
      (drew (plot (pos 3) (pos 4) 7) ((draw {M = TestMemory} (plot (pos 3) (pos 4) 7) black).1) tt
        (start 307200 (omega arith)) plotted)
