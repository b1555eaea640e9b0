-- ===== src/Client.antt =====
-- src/app/client.cpp with the handlers of src/app/touch.cpp, virtualkeyboard.cpp and buttons.cpp:
-- what comes in from the device, and what is sent to the VNC server. The clock's reading is an
-- argument; the log lines are left out.
pub mod Gesture
pub mod Timeouts
pub mod Keys
mod Tests
use rmcast.Base.{
  ℕ, ◌+◌, ◌*◌, ◌%◌, ◌^◌, List, [], ◌∷◌, ◌++◌, Option, none, some, Bool, true, false, not, ◌&&◌,
  ◌||◌, if◌then◌else◌, ◌==◌, leb,
}
use rmcast.Base.Int.{ℤ}
use rmcast.Screen.{Screen, RepaintMode, standard, fast}
use rmcast.Screen.Input.{transform_input}
use rmcast.Screen.Repaint.{set_repaint_mode, repaint}

-- `SendPointerEvent` and `SendKeyEvent`.
pub record Pointer : Type 0 where
  pub x : ℤ
  pub y : ℤ
  pub buttons : ℕ

pub record Key : Type 0 where
  pub key : ℕ
  pub is_down : Bool

-- `full_updates` counts the calls of `device.update()`, and `has_exited` notes `exit(0)`.
pub record Client : Type 0 where
  pub screen : Screen
  pub pointers : List Pointer
  pub keys : List Key
  pub full_updates : ℕ
  pub has_exited : Bool

-- `INPUT_…` of middleware/extension/src/qtfb/common.h
abbrev pub input_touch_press : ℕ
input_touch_press = 0x10

abbrev pub input_touch_release : ℕ
input_touch_release = 0x11

abbrev pub input_touch_update : ℕ
input_touch_update = 0x12

abbrev pub input_pen_press : ℕ
input_pen_press = 0x20

abbrev pub input_pen_release : ℕ
input_pen_release = 0x21

abbrev pub input_pen_update : ℕ
input_pen_update = 0x22

abbrev pub input_btn_press : ℕ
input_btn_press = 0x30

abbrev pub input_btn_release : ℕ
input_btn_release = 0x31

abbrev pub input_vkb_press : ℕ
input_vkb_press = 0x40

abbrev pub input_vkb_release : ℕ
input_vkb_release = 0x41

-- `MouseButton`
abbrev pub button_none : ℕ
button_none = 0

abbrev pub button_left : ℕ
button_left = 1

pub send_button_press : Client → ℤ → ℤ → ℕ → Client
send_button_press c x y button =
    let (sx, sy) = transform_input c.screen x y in
    record c { pointers = c.pointers ++ record { x = sx; y = sy; buttons = button } ∷ [] }

pub send_virtual_key_press : Client → ℕ → Bool → Client
send_virtual_key_press c key_code down = record c {
  keys = c.keys ++ record { key = key_code; is_down = down } ∷ [];
}

pub repainted : ℕ → Client → Option Client
repainted now c = elim (repaint now c.screen) [
  | none ↦ none
  | some s ↦ some (record c { screen = s })
]

pub set_mode : Client → RepaintMode → Client
unfolding set_repaint_mode
set_mode c mode = record c { screen = set_repaint_mode c.screen mode }

pub is_press : ℕ → Bool
is_press type = (type == input_touch_press) || (type == input_pen_press)

pub is_release : ℕ → Bool
is_release type = (type == input_touch_release) || (type == input_pen_release)

-- `touch::handle_event`
pub handle_touch : ℕ → Client → ℕ → ℤ → ℤ → Option Client
unfolding send_button_press is_press is_release set_mode repainted
handle_touch now c type x y =
    let ready = if is_press type then set_mode c fast else c in
    let pressed = send_button_press ready x y button_left in
    if is_release type
    then repainted now (set_mode (send_button_press pressed x y button_none) standard)
    else some pressed

pub map_ascii_to_x11_key : ℕ → ℕ
map_ascii_to_x11_key ascii =
    if leb 0x20 ascii && leb ascii 0x7E
    then ascii
    else if leb 0xA0 ascii && leb ascii 0xFF
    then ascii
    else if ascii == 8
    then 0xFF08
    else if ascii == 9
    then 0xFF09
    else if ascii == 13
    then 0xFF0D
    else if ascii == 27
    then 0xFF1B
    else if ascii == 127
    then 0xFFFF
    else if ascii == 0x84
    then 0xFF51
    else if ascii == 0x83
    then 0xFF52
    else if ascii == 0x85
    then 0xFF53
    else if ascii == 0x82
    then 0xFF54
    else if ascii == 0x86
    then 0xFF50
    else if ascii == 0x87
    then 0xFF57
    else if ascii == 0x80
    then 0xFF55
    else if ascii == 0x81
    then 0xFF56
    else 0

pub remap_modifier_key : ℕ → ℕ
remap_modifier_key key =
    if key == 0x100000
    then 0xFFE1
    else if key == 0x200000
    then 0xFFE3
    else if key == 0x400000
    then 0xFFE9
    else 0

-- `virtualkeyboard::handle_event`; a negative key code does not occur.
pub handle_key : ℕ → Client → ℕ → ℕ → Option Client
unfolding set_mode repainted send_virtual_key_press map_ascii_to_x11_key remap_modifier_key
handle_key now c type key_code =
    if key_code == 0xF001
    then (if type == input_vkb_press then some (set_mode c fast) else some c)
    else if key_code == 0xF000
    then (if type == input_vkb_press then repainted now (set_mode c standard) else some c)
    else if key_code == 0
    then some c
    else if key_code % 2 ^ 16 == 0
    then some (send_virtual_key_press c (remap_modifier_key key_code) (type == input_vkb_press))
    else some (
        send_virtual_key_press c (map_ascii_to_x11_key (key_code % 2 ^ 16))
          (type == input_vkb_press))

-- `buttons::handle_event`, with the codes of the two keys.
pub handle_button : ℕ → ℕ → Client → ℕ → ℕ → Client
handle_button key_power key_home c type button_code =
    if (type == input_btn_press) && (button_code == key_power)
    then record c { has_exited = true }
    else if (type == input_btn_press) && (button_code == key_home)
    then record c { full_updates = c.full_updates + 1 }
    else c
