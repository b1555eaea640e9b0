-- ===== src/Screen/Blit.antt =====
-- `screen::blit_rotated` of src/app/screen.cpp. `none` is an access outside of a buffer.
-- The three rotated cases of its switch are one loop over `place`, the position that each computes.
pub mod Cells
pub mod Shows
pub mod Paint
pub mod Copies
pub mod Region
pub mod Correct
use rmcast.Base.{
  ℕ, ◌+◌, ◌*◌, List, Option, none, some, Bool, ◌||◌, if◌then◌else◌, ltb, length, get_elem?, set,
}
use rmcast.Base.Int.{ℤ, pos, pos_part, ◌+ℤ◌, ◌-ℤ◌, ltb_ℤ, leb_ℤ, min_ℤ}
use rmcast.Base.Loops.{for_from}
use rmcast.Clip.{Span, clip}
use rmcast.Orientation.{Orientation, portrait, landscape_cw, inverted_portrait, landscape_ccw, auto}
use rmcast.Screen.{Rect, zero_rect, Device, Screen}

-- The pixel at a row and column of an image, as an index; the code casts it to `size_t`.
abbrev pub index : ℤ → ℤ → ℤ → ℕ
index width row col = pos_part row * pos_part width + pos_part col

-- `memcpy` of one pixel.
pub copy_cell : List ℕ → ℕ → ℕ → List ℕ → Option (List ℕ)
copy_cell src i j dst = elim (get_elem? src i) [
  | none ↦ none
  | some p ↦ if ltb j (length dst) then some (set dst j p) else none
]

-- The lambda `put`.
pub put : Device → List ℕ → ℤ → ℤ → ℕ → List ℕ → Option (List ℕ)
put d src dst_col dst_row p dst =
    if ltb_ℤ dst_col (pos 0) || leb_ℤ d.xres dst_col
    then some dst
    else if ltb_ℤ dst_row (pos 0) || leb_ℤ d.yres dst_row
    then some dst
    else copy_cell src p (index d.xres dst_row dst_col) dst

-- Where the source pixel at a row and column goes, as a column and a row of the panel.
unfoldable pub place : Orientation → ℤ → ℤ → ℤ → ℤ → ℤ × ℤ
place portrait src_w src_h row col = (col, row)
place auto src_w src_h row col = (col, row)
place inverted_portrait src_w src_h row col = (src_w -ℤ pos 1 -ℤ col, src_h -ℤ pos 1 -ℤ row)
place landscape_cw src_w src_h row col = (src_h -ℤ pos 1 -ℤ row, col)
place landscape_ccw src_w src_h row col = (row, src_w -ℤ pos 1 -ℤ col)

-- One pixel of the nested loops.
pub paint_cell : Screen → Rect → ℕ → ℕ → List ℕ → Option (List ℕ)
paint_cell s r y x dst =
    let row = r.y +ℤ pos y in
    let col = r.x +ℤ pos x in
    let (dst_col, dst_row) = place s.effective s.src_width s.src_height row col in
    put s.device s.src_buffer dst_col dst_row (index s.src_width row col) dst

pub paint_row : Screen → Rect → ℕ → List ℕ → Option (List ℕ)
paint_row s r y dst = for_from (paint_cell s r y) 0 (pos_part r.w) dst

pub paint_rotated : Screen → Rect → List ℕ → Option (List ℕ)
paint_rotated s r dst = for_from (paint_row s r) 0 (pos_part r.h) dst

-- The rectangle `dx, dy, dw, dh` of a rotated case, before it is clamped.
pub landed : Orientation → ℤ → ℤ → Rect → Rect
landed portrait src_w src_h r = r
landed auto src_w src_h r = r
landed inverted_portrait src_w src_h r = record {
  x = src_w -ℤ r.x -ℤ r.w;
  y = src_h -ℤ r.y -ℤ r.h;
  w = r.w;
  h = r.h;
}
landed landscape_cw src_w src_h r = record { x = src_h -ℤ r.y -ℤ r.h; y = r.x; w = r.h; h = r.w }
landed landscape_ccw src_w src_h r = record { x = r.y; y = src_w -ℤ r.x -ℤ r.w; w = r.h; h = r.w }

-- `memcpy` of `r.w` pixels of one row, from the same place of the source.
pub copy_row : Screen → Rect → ℕ → List ℕ → Option (List ℕ)
copy_row s r y dst =
    let row = r.y +ℤ pos y in
    for_from
      (λ x.
        copy_cell s.src_buffer (index s.src_width row r.x + x) (index s.device.xres row r.x + x))
      0 (pos_part r.w) dst

pub copy_rows : Screen → Rect → List ℕ → Option (List ℕ)
copy_rows s r dst = for_from (copy_row s r) 0 (pos_part r.h) dst

-- The final clamp to the panel.
pub clamp_size : ℤ → ℤ
clamp_size n = if ltb_ℤ n (pos 0) then pos 0 else n

pub clamp_to_panel : Device → Rect → Rect
clamp_to_panel d r =
    let across = clip d.xres (record { start = r.x; size = r.w }) in
    let down = clip d.yres (record { start = r.y; size = r.h }) in
    record {
      x = across.start;
      y = down.start;
      w = clamp_size across.size;
      h = clamp_size down.size;
    }

abbrev pub is_empty : Rect → Bool
is_empty r = leb_ℤ r.w (pos 0) || leb_ℤ r.h (pos 0)

-- The panel's pixels and rectangle after a paint.
pub finish : Screen → Rect → Option (List ℕ) → Option (Screen × Rect)
finish s r none = none
finish s r (some dst) =
    some (record s { device = record (s.device) { pixels = dst } }, clamp_to_panel s.device r)

pub blit_identity : Screen → Rect → Option (Screen × Rect)
blit_identity s r =
    let cropped : Rect = record r {
      w = min_ℤ r.w (s.device.xres -ℤ r.x);
      h = min_ℤ r.h (s.device.yres -ℤ r.y);
    } in
    if is_empty cropped
    then some (s, zero_rect)
    else finish s cropped (copy_rows s cropped s.device.pixels)

pub blit_turned : Screen → Rect → Option (Screen × Rect)
blit_turned s r =
    finish s (landed s.effective s.src_width s.src_height r) (paint_rotated s r s.device.pixels)

pub blit_by : Orientation → Screen → Rect → Option (Screen × Rect)
blit_by portrait = blit_identity
blit_by auto = blit_identity
blit_by inverted_portrait = blit_turned
blit_by landscape_cw = blit_turned
blit_by landscape_ccw = blit_turned

-- The rectangle clamped to the source.
pub clip_to_source : Screen → Rect → Rect
clip_to_source s r =
    let across = clip s.src_width (record { start = r.x; size = r.w }) in
    let down = clip s.src_height (record { start = r.y; size = r.h }) in
    record { x = across.start; y = down.start; w = across.size; h = down.size }

pub blit_rotated : Screen → Rect → Option (Screen × Rect)
blit_rotated s r =
    let clipped = clip_to_source s r in
    if is_empty clipped then some (s, zero_rect) else blit_by s.effective s clipped
