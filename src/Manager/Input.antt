-- ===== src/Manager/Input.antt =====
-- The input events of `FBController` (middleware/extension/src/qtfb/FBController.cpp): each gives the
-- packets that it passes to `forwardUserInput`, in order. The item's size is in whole pixels.
pub mod Touches
use rmcast.Base.{
  ℕ, List, [], ◌∷◌, ◌++◌, Option, none, some, Bool, true, false, not, ◌&&◌, if◌then◌else◌, ◌==◌,
  length,
}
use rmcast.Base.Int.{ℤ, pos, negsuc, ◌*ℤ◌, eq_ℤ, ltb_ℤ}
use rmcast.Manager.{FbController, drag_down, request_full_refresh, UserInputContents}
use rmcast.Client.{
  input_touch_press, input_touch_release, input_touch_update, input_pen_press, input_pen_release,
  input_pen_update, input_btn_press, input_btn_release, input_vkb_press, input_vkb_release,
}
use rmcast.Manager.Controller.{quot_ℤ, emit}

-- `QPointF`: the coordinates are `x` and `y` in parts of a pixel, of which it has `unit`.
pub record PointF : Type 0 where
  pub x : ℤ
  pub y : ℤ
  pub unit : ℕ

-- The conversion of a `qreal` to an `int` drops what is behind the point. The `qreal` operations are
-- taken to be exact.
unfoldable pub convert_point_to_qtfb_pixels : FbController → PointF → ℤ × ℤ
convert_point_to_qtfb_pixels c p =
    let whole : ℤ × ℤ = (quot_ℤ p.x (pos p.unit), quot_ℤ p.y (pos p.unit)) in
    elim c.image [
      | none ↦ whole
      | some image ↦
          if c.allow_scaling
          then (
            quot_ℤ (p.x *ℤ image.width) (c.item_width *ℤ pos p.unit),
            quot_ℤ (p.y *ℤ image.height) (c.item_height *ℤ pos p.unit),
          )
          else whole
    ]

-- `QEventPoint`; `pressure` in hundredths.
pub data PointState : Type 0 where
  pressed released updated stationary : PointState

pub record EventPoint : Type 0 where
  pub id : ℤ
  pub position : PointF
  pub pressure : ℕ
  pub state : PointState

unfoldable pub packet_of : ℕ → ℤ → ℤ × ℤ → ℤ → UserInputContents
packet_of type dev (x, y) d = record { input_type = type; dev_id = dev; x = x; y = y; d = d }

unfoldable pub is_bound : FbController → Bool
is_bound c = not (eq_ℤ c.framebuffer_id (negsuc 0))

-- `mousePressEvent` and `mouseMoveEvent`, by the type of the packet.
unfoldable pub pen_event : ℕ → FbController → List EventPoint → List UserInputContents
pen_event type c [] = []
pen_event type c (p ∷ _) =
    if is_bound c
    then packet_of type (pos 0) (convert_point_to_qtfb_pixels c p.position) (pos p.pressure) ∷ []
    else []

unfoldable pub mouse_press_event : FbController → List EventPoint → List UserInputContents
mouse_press_event = pen_event input_pen_press

unfoldable pub mouse_move_event : FbController → List EventPoint → List UserInputContents
mouse_move_event = pen_event input_pen_update

unfoldable pub mouse_release_event : FbController → PointF → List UserInputContents
mouse_release_event c p =
    if is_bound c
    then packet_of input_pen_release (pos 0) (convert_point_to_qtfb_pixels c p) (pos 0) ∷ []
    else []

-- `sendKeyEvent`, which the four key methods call with their type.
unfoldable pub send_key_event : ℕ → FbController → ℤ → List UserInputContents
send_key_event type c key =
    if is_bound c then packet_of type (pos 0) (key, pos 0) (pos 0) ∷ [] else []

unfoldable pub virtual_keyboard_key_down : FbController → ℤ → List UserInputContents
virtual_keyboard_key_down = send_key_event input_vkb_press

unfoldable pub virtual_keyboard_key_up : FbController → ℤ → List UserInputContents
virtual_keyboard_key_up = send_key_event input_vkb_release

unfoldable pub special_key_down : FbController → ℤ → List UserInputContents
special_key_down = send_key_event input_btn_press

unfoldable pub special_key_up : FbController → ℤ → List UserInputContents
special_key_up = send_key_event input_btn_release

-- `keyPressEvent` and `keyReleaseEvent`; the codes of `Qt::Key` are given.
pub record QtKeys : Type 0 where
  pub right : ℕ
  pub left : ℕ
  pub home : ℕ

unfoldable pub translate_key : QtKeys → ℕ → ℤ
translate_key keys k =
    if k == keys.right
    then pos 2
    else if k == keys.left
    then pos 0
    else if k == keys.home
    then pos 1
    else negsuc 0

unfoldable pub key_event :
    (FbController → ℤ → List UserInputContents) → QtKeys → FbController → ℕ → List UserInputContents
key_event send keys c key =
    let k = translate_key keys key in if not (eq_ℤ k (negsuc 0)) then send c k else []

unfoldable pub key_press_event : QtKeys → FbController → ℕ → List UserInputContents
key_press_event = key_event special_key_down

unfoldable pub key_release_event : QtKeys → FbController → ℕ → List UserInputContents
key_release_event = key_event special_key_up

-- What the switch of `touchEvent` does to the controller for a point, at its converted `y`.
unfoldable pub note_point : ℕ → PointState → ℤ → FbController → FbController
note_point points pressed y c =
    if ltb_ℤ y (pos 100) then record c { checking_gesture_drag_down = true } else c
note_point points released y c =
    let d =
      if ltb_ℤ (pos 100) y && (ltb_ℤ y (pos 400) && c.checking_gesture_drag_down)
      then emit drag_down c
      else c in
    let e = if points == 1 then record d { refreshed_screen_already = false } else d in
    record e { checking_gesture_drag_down = false }
note_point points updated y c = c
note_point points stationary y c = c

unfoldable pub touch_type : PointState → ℕ
touch_type pressed = input_touch_press
touch_type released = input_touch_release
touch_type updated = input_touch_update
touch_type stationary = input_touch_press

unfoldable pub touch_points :
    ℕ → List EventPoint → FbController → FbController × List UserInputContents
touch_points n [] c = (c, [])
touch_points n (p ∷ ps) c =
    let at = convert_point_to_qtfb_pixels c p.position in
    let (d, packets) = touch_points n ps (note_point n p.state at.1 c) in
    (d, packet_of (touch_type p.state) p.id at (pos 0) ∷ packets)

-- The full refresh for five fingers.
unfoldable pub note_five : ℕ → FbController → FbController
note_five n c =
    if n == 5 && not c.refreshed_screen_already
    then record (emit request_full_refresh c) { refreshed_screen_already = true }
    else c

unfoldable pub touch_event : List EventPoint → FbController → FbController × List UserInputContents
touch_event ps c =
    if is_bound c then touch_points (length ps) ps (note_five (length ps) c) else (c, [])
