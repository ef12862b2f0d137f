-- ===== src/Events/Input.antt =====
-- apps/vmrp-windows/src/presenter.rs: the events of the guest for the keys and the pointer of the window,
-- as the build for Windows translates them.
use vmrp_rust.Prelude.{
  ℕ, ◌-◌, ◌/◌, ◌%◌, ◌^◌, ◌≡◌, ◌≢◌, ◌&&◌, ◌||◌, Option, none, some, List, [], ◌∷◌, leb, ◌==◌,
  if◌then◌else◌,
}
use vmrp_rust.Prelude.Int.{ℤ, pos}
use vmrp_rust.Runtime.{Runtime, guest_event, push_event}

pub record GuestInputEvent : Type 0 where
  pub code : ℤ
  pub p0 : ℕ
  pub p1 : ℕ

abbrev pub mr_key_press : ℤ
mr_key_press = pos 0

abbrev pub mr_key_release : ℤ
mr_key_release = pos 1

abbrev pub mr_mouse_down : ℤ
mr_mouse_down = pos 2

abbrev pub mr_mouse_up : ℤ
mr_mouse_up = pos 3

abbrev pub mr_mouse_move : ℤ
mr_mouse_move = pos 12

-- The digits, on the keyboard and on the number pad, and then return, plus, minus, the arrows or their
-- letters, the soft keys, tab and escape.
unfoldable pub map_virtual_key : ℕ → Option ℕ
map_virtual_key vk =
    if leb 0x30 vk && leb vk 0x39
    then some (vk - 0x30)
    else if leb 0x60 vk && leb vk 0x69
    then some (vk - 0x60)
    else if vk == 0x0d
    then some 20
    else if vk == 0xbb
    then some 11
    else if vk == 0xbd
    then some 10
    else if (vk == 0x26) || (vk == 0x57)
    then some 12
    else if (vk == 0x28) || (vk == 0x53)
    then some 13
    else if (vk == 0x25) || (vk == 0x41)
    then some 14
    else if (vk == 0x27) || (vk == 0x44)
    then some 15
    else if (vk == 0xdb) || (vk == 0x51)
    then some 17
    else if (vk == 0xdd) || (vk == 0x45)
    then some 18
    else if vk == 0x09
    then some 19
    else if vk == 0x1b
    then some 16
    else none

abbrev pub key_event : ℤ → Option ℕ → Option GuestInputEvent
key_event code none = none
key_event code (some key) = some (record { code = code; p0 = key; p1 = 0 })

-- The messages of the window: 0x100 and 0x104 for a key that goes down, 0x101 and 0x105 for up.
unfoldable pub translate_win32_key_event : ℕ → ℕ → Option GuestInputEvent
unfolding map_virtual_key
translate_win32_key_event message w_param =
    let key = map_virtual_key (w_param % 2 ^ 32) in
    if (message == 0x100) || (message == 0x104)
    then key_event mr_key_press key
    else if (message == 0x101) || (message == 0x105)
    then key_event mr_key_release key
    else none

abbrev pub pointer_event : ℤ → ℕ → Option GuestInputEvent
pointer_event code packed =
    some (record { code = code; p0 = packed % 2 ^ 16; p1 = packed / 2 ^ 16 % 2 ^ 16 })

-- `l_param` is the bit pattern of its isize; 0x200 is a move, 0x201 the button down, 0x202 up.
unfoldable pub translate_win32_pointer_event : ℕ → ℕ → Option GuestInputEvent
translate_win32_pointer_event message l_param =
    let packed = l_param % 2 ^ 32 in
    if message == 0x200
    then pointer_event mr_mouse_move packed
    else if message == 0x201
    then pointer_event mr_mouse_down packed
    else if message == 0x202
    then pointer_event mr_mouse_up packed
    else none

-- `drain_presenter_events` of src/main.rs, on the events that the presenter has collected.
unfoldable pub drain_presenter_events : List GuestInputEvent → Runtime → Runtime
unfolding push_event
drain_presenter_events [] r = r
drain_presenter_events (event ∷ rest) r =
    drain_presenter_events rest (push_event (guest_event event.code event.p0 event.p1) r)

-- The keys of the phone, from 0 to 20, for the virtual keys of Windows.
abbrev pub key_table : List (ℕ × ℕ)
key_table =
    (0x30, 0)
    ∷ (0x31, 1)
    ∷ (0x32, 2)
    ∷ (0x33, 3)
    ∷ (0x34, 4)
    ∷ (0x35, 5)
    ∷ (0x36, 6)
    ∷ (0x37, 7)
    ∷ (0x38, 8)
    ∷ (0x39, 9)
    ∷ (0x60, 0)
    ∷ (0x61, 1)
    ∷ (0x62, 2)
    ∷ (0x63, 3)
    ∷ (0x64, 4)
    ∷ (0x65, 5)
    ∷ (0x66, 6)
    ∷ (0x67, 7)
    ∷ (0x68, 8)
    ∷ (0x69, 9)
    ∷ (0x0d, 20)
    ∷ (0xbb, 11)
    ∷ (0xbd, 10)
    ∷ (0x26, 12)
    ∷ (0x57, 12)
    ∷ (0x28, 13)
    ∷ (0x53, 13)
    ∷ (0x25, 14)
    ∷ (0x41, 14)
    ∷ (0x27, 15)
    ∷ (0x44, 15)
    ∷ (0xdb, 17)
    ∷ (0x51, 17)
    ∷ (0xdd, 18)
    ∷ (0x45, 18)
    ∷ (0x09, 19)
    ∷ (0x1b, 16)
    ∷ []

abbrev pub lookup : ℕ → List (ℕ × ℕ) → Option ℕ
lookup vk [] = none
lookup vk ((k, key) ∷ rest) = if vk == k then some key else lookup vk rest

-- The events for a key of the window, by the table.
pub record Translates (w_param : ℕ) : Type 0 where
  pub down :
      translate_win32_key_event 0x100 w_param
      ≡ key_event mr_key_press (lookup (w_param % 2 ^ 32) key_table)
  pub system_down :
      translate_win32_key_event 0x104 w_param
      ≡ key_event mr_key_press (lookup (w_param % 2 ^ 32) key_table)
  pub up :
      translate_win32_key_event 0x101 w_param
      ≡ key_event mr_key_release (lookup (w_param % 2 ^ 32) key_table)
  pub system_up :
      translate_win32_key_event 0x105 w_param
      ≡ key_event mr_key_release (lookup (w_param % 2 ^ 32) key_table)
  pub others :
      (message : ℕ)
      → message ≢ 0x100
      → message ≢ 0x101
      → message ≢ 0x104
      → message ≢ 0x105
      → translate_win32_key_event message w_param ≡ none
