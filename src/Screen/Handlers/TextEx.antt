-- ===== src/Screen/Handlers/TextEx.antt =====
-- crates/vmrp-platform/src/lib.rs: `handle_legacy_draw_text_ex`, which breaks lines of text in a
-- rectangle and answers with the index behind the characters that fit.
use vmrp_rust.Prelude.{ℕ, ◌*◌, Bool, true, ◌&&◌, List, length, bit_and, ◌==◌, ◌!=◌, if◌then◌else◌}
use vmrp_rust.Prelude.Int.{ℤ, pos, as_i32, ltb_ℤ, leb_ℤ, saturating_add_i32}
use vmrp_rust.Prelude.Result.{Result}
use vmrp_rust.Prelude.State.{pure, ◌>>=◌, and_then}
use vmrp_rust.Word.{add32}
use vmrp_rust.Abi.{Bytes}
use vmrp_rust.Cpu.Memory.{MemoryBus}
use vmrp_rust.Cpu.Regs.{sp_index}
use vmrp_rust.Screen.{Screen, Draw, DrawError}
use vmrp_rust.Screen.Region.{InScreen}
use vmrp_rust.Screen.Tracks.{IsI32, Tracks, Tracked, tracked, not_read}
use vmrp_rust.Screen.Text.{read_guest_text_chars}
use vmrp_rust.Screen.Text.Clipped.{Clip, Layout, draw_chars_clipped}
use vmrp_rust.Screen.Text.Clipped.Lines.{draw_chars_clipped-Tracked}
use vmrp_rust.Screen.Handlers.{
  Service, rgb888_to_rgb565, arg, load32, load16, of_access, on_memory, return_with,
}
use vmrp_rust.Screen.Handlers.Reads.{Any, read_guest_text_chars-Reads}
use vmrp_rust.Screen.Handlers.Served.{
  Serves, bind-Serves, access-Serves, reads_then_draws, Tracked-Served, as_i32-IsI32, arg-Serves,
  load32-Serves, load16-Serves, return_with-Serves,
}

abbrev pub start_layout : ℤ → ℤ → Layout
start_layout x y = record {
  cursor_x = x;
  cursor_y = y;
  line_height = pos 0;
  consumed_bytes = 0;
  endchar_index = 0;
  exhausted = true;
}

-- The rectangle at a place, with a width and a height of u16.
abbrev pub clip_of : ℤ → ℤ → ℕ → ℕ → Clip
clip_of x y rect_w rect_h = record {
  left = x;
  top = y;
  right = saturating_add_i32 x (pos rect_w);
  bottom = saturating_add_i32 y (pos rect_h);
}

-- The answer after the loop.
unfoldable pub end_index : Bool → Clip → ℕ → Layout → ℕ
end_index auto_newline clip total_bytes l =
    if l.exhausted && l.consumed_bytes == total_bytes
    then if auto_newline
      then if ltb_ℤ (saturating_add_i32 l.cursor_y l.line_height) clip.bottom
        then total_bytes
        else l.endchar_index
      else if leb_ℤ l.cursor_x clip.right
      then total_bytes
      else l.endchar_index
    else l.endchar_index

-- `(chars.len() as u32).saturating_mul(2)`: no more than 4096 characters are read.
abbrev pub total_bytes : List ℕ → ℕ
total_bytes chars = length chars * 2

unfoldable pub draw_text_ex : Bytes → Bool → Clip → ℕ → List ℕ → Draw ℕ
unfolding draw_chars_clipped end_index
draw_text_ex font auto_newline clip color chars = do
  l ← draw_chars_clipped font auto_newline clip color chars (start_layout clip.left clip.top)
  pure (end_index auto_newline clip (total_bytes chars) l)

module _ {M : Type 0} ⦃bus : MemoryBus M⦄ where
  abbrev pub load8 : ℕ → Service M ℕ
  load8 addr c = of_access (bus.read8 c.host.memory addr) c

  -- The text is read in the encoding that bit 0 of the flag tells, and its lines are broken for bit 1.
  unfoldable pub read_and_draw : M → Bytes → ℕ → ℕ → Clip → ℕ → Draw ℕ
  unfolding read_guest_text_chars draw_text_ex
  read_and_draw memory font text_ptr flag clip color = do
    chars ← read_guest_text_chars memory text_ptr (bit_and flag 1 != 0) 4096
    draw_text_ex font (bit_and flag 2 != 0) clip color chars

  -- The font's number on the stack is read and not used.
  unfoldable pub handle_legacy_draw_text_ex : Bytes → Service M (Unit {0})
  unfolding return_with read_and_draw rgb888_to_rgb565
  handle_legacy_draw_text_ex font = do
    text_ptr ← arg 0
    x ← arg 1
    y ← arg 2
    sp ← arg sp_index
    rect_w ← load16 (add32 sp 4)
    rect_h ← load16 (add32 sp 6)
    r ← load8 (add32 sp 8)
    g ← load8 (add32 sp 9)
    b ← load8 (add32 sp 10)
    flag ← load32 (add32 sp 12)
    unused ← load32 (add32 sp 16)
    endchar_index ← on_memory (λ memory.
        read_and_draw memory font text_ptr flag (clip_of (as_i32 x) (as_i32 y) rect_w rect_h)
          (rgb888_to_rgb565 r g b))
    return_with endchar_index

pub draw_text_ex-Tracked :
    (font : Bytes) (auto_newline : Bool) (clip : Clip) (color : ℕ) (chars : List ℕ)
    (shown : ℕ → ℕ → ℕ) (s : Screen)
    → IsI32 clip.left
    → IsI32 clip.top
    → InScreen s.dirty_region
    → Tracks shown s
    → Tracked shown (draw_text_ex font auto_newline clip color chars s)
unfolding draw_text_ex
draw_text_ex-Tracked font auto_newline clip color chars shown s vx vy i t =
    cases
      (draw_chars_clipped font auto_newline clip color chars (start_layout clip.left clip.top) s)
      (draw_chars_clipped-Tracked font auto_newline clip color vx shown chars
        (start_layout clip.left clip.top) s (record { across = vx; down = vy }) i t)
  where
    cases :
        (r : Result DrawError Layout × Screen)
        → Tracked shown r
        → Tracked {A = ℕ} shown
            (and_then r (λ l. pure (end_index auto_newline clip (total_bytes chars) l)))
    cases _ (tracked i t) = tracked i t
    cases _ (not_read i) = not_read i

module _ {M : Type 0} ⦃bus : MemoryBus M⦄ where
  load8-Serves : (addr : ℕ) → Serves {M = M} Any (load8 addr)
  load8-Serves addr shown c i t = access-Serves shown c (bus.read8 c.host.memory addr) i t

  read_and_draw-Serves :
      (font : Bytes) (text_ptr flag : ℕ) (clip : Clip) (color : ℕ)
      → IsI32 clip.left
      → IsI32 clip.top
      → Serves {M = M} Any
          (on_memory (λ memory. read_and_draw memory font text_ptr flag clip color))
  unfolding read_and_draw
  read_and_draw-Serves font text_ptr flag clip color vx vy shown c i t =
      let read = read_guest_text_chars c.host.memory text_ptr (bit_and flag 1 != 0) 4096 in
      let draw = draw_text_ex font (bit_and flag 2 != 0) clip color in
      Tracked-Served c ((read >>= draw) c.screen) (
        reads_then_draws read draw shown c.screen i
          (read_guest_text_chars-Reads c.host.memory text_ptr (bit_and flag 1 != 0) 4096)
          (λ chars _.
            draw_text_ex-Tracked font (bit_and flag 2 != 0) clip color chars shown c.screen vx vy i
              t))

  pub handle_legacy_draw_text_ex-Serves :
      (font : Bytes) → Serves {M = M} Any (handle_legacy_draw_text_ex font)
  unfolding handle_legacy_draw_text_ex
  handle_legacy_draw_text_ex-Serves font = bind-Serves _ _ (arg-Serves 0) (λ text_ptr _.
      bind-Serves _ _ (arg-Serves 1) (λ x _. bind-Serves _ _ (arg-Serves 2) (λ y _.
        bind-Serves _ _ (arg-Serves sp_index) (λ sp _.
          bind-Serves _ _ (load16-Serves (add32 sp 4)) (λ rect_w _.
            bind-Serves _ _ (load16-Serves (add32 sp 6)) (λ rect_h _.
              bind-Serves _ _ (load8-Serves (add32 sp 8)) (λ r _.
                bind-Serves _ _ (load8-Serves (add32 sp 9)) (λ g _.
                  bind-Serves _ _ (load8-Serves (add32 sp 10)) (λ b _.
                    bind-Serves _ _ (load32-Serves (add32 sp 12)) (λ flag _.
                      bind-Serves _ _ (load32-Serves (add32 sp 16)) (λ unused _.
                        let clip = clip_of (as_i32 x) (as_i32 y) rect_w rect_h in
                        let color = rgb888_to_rgb565 r g b in
                        bind-Serves {P = Any}
                          (on_memory (λ memory. read_and_draw memory font text_ptr flag clip color))
                          return_with
                          (read_and_draw-Serves font text_ptr flag clip color (as_i32-IsI32 x)
                            (as_i32-IsI32 y))
                          (λ out _. return_with-Serves out))))))))))))
