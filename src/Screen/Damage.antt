-- ===== src/Screen/Damage.antt =====
-- `screen::commit_updates` of src/app/screen.cpp, without its log of the last 60 commits. Areas are
-- exact; the code computes them in `int` and `long`.
pub mod Merge
pub mod Lost
pub mod Stale
use rmcast.Base.{Bool, true, false, if◌then◌else◌}
use rmcast.Base.Int.{ℤ, pos, ◌+ℤ◌, ◌-ℤ◌, ◌*ℤ◌, ltb_ℤ, min_ℤ, max_ℤ}
use rmcast.Screen.{Rect, Screen, device_update}
use rmcast.Screen.Repaint.{waveform_mode}

pub area : Rect → ℤ
area r = r.w *ℤ r.h

-- The bounding box of two rectangles, as `left_x` to `merged_h`.
pub merge : Rect → Rect → Rect
merge old new =
    let left_x = min_ℤ new.x old.x in
    let top_y = min_ℤ new.y old.y in
    let right_x = max_ℤ (new.x +ℤ new.w) (old.x +ℤ old.w) in
    let bottom_y = max_ℤ (new.y +ℤ new.h) (old.y +ℤ old.h) in
    record { x = left_x; y = top_y; w = right_x -ℤ left_x; h = bottom_y -ℤ top_y }

-- `merged_area > sum_area * 2`
unfoldable pub is_bad_merge : Rect → Rect → Bool
unfolding area merge
is_bad_merge old new = ltb_ℤ ((area old +ℤ area new) *ℤ pos 2) (area (merge old new))

unfoldable pub set_pending : Screen → Rect → Screen
set_pending s r = record s { update_info = record { rect = r; has_update = true } }

unfoldable pub commit_updates : Screen → Rect → Screen
unfolding is_bad_merge set_pending
commit_updates s new =
    if s.update_info.has_update
    then if is_bad_merge s.update_info.rect new
      then set_pending
          (record s { device = device_update s.device s.update_info.rect (waveform_mode s) }) new
      else set_pending s (merge s.update_info.rect new)
    else set_pending s new
