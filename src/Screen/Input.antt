-- ===== src/Screen/Input.antt =====
-- `screen::transform_input` of src/app/screen.cpp.
pub mod Inverse
use rmcast.Base.{◌||◌, if◌then◌else◌}
use rmcast.Base.Int.{ℤ, pos, ◌-ℤ◌, leb_ℤ}
use rmcast.Orientation.{Orientation, portrait, landscape_cw, inverted_portrait, landscape_ccw, auto}
use rmcast.Screen.{Screen}

-- The switch: a panel position `x, y` in the coordinates of the source.
unfoldable pub unplace : Orientation → ℤ → ℤ → ℤ → ℤ → ℤ × ℤ
unplace portrait src_w src_h x y = (x, y)
unplace auto src_w src_h x y = (x, y)
unplace inverted_portrait src_w src_h x y = (src_w -ℤ pos 1 -ℤ x, src_h -ℤ pos 1 -ℤ y)
unplace landscape_cw src_w src_h x y = (y, src_h -ℤ pos 1 -ℤ x)
unplace landscape_ccw src_w src_h x y = (src_w -ℤ pos 1 -ℤ y, x)

unfoldable pub transform_input : Screen → ℤ → ℤ → ℤ × ℤ
transform_input s x y =
    if leb_ℤ s.src_width (pos 0) || leb_ℤ s.src_height (pos 0)
    then (x, y)
    else unplace s.effective s.src_width s.src_height x y
