-- ===== src/Screen/Blit/Copies.antt =====
-- The two ways in which `blit_rotated` paints a rectangle that lies within the source.
use rmcast.Base.{ℕ, ◌+◌, ◌≡◌, List, some, arith}
use rmcast.Base.Int.{ℤ, pos, pos_part, ◌+ℤ◌, ◌≤ℤ◌, int_laws, parts_disjoint}
use rmcast.Screen.{Rect, Screen}
use rmcast.Screen.Blit.{index, paint_cell, paint_row, paint_rotated, copy_row, copy_rows}
use rmcast.Screen.Blit.Cells.{put-Put, Put-inside}
use rmcast.Screen.Blit.Shows.{Shows, source_index, placed}
use rmcast.Screen.Blit.Paint.{Fits, InRect, in_source, rows-Shows}

module _ (s : Screen) (r : Rect) (fits : Fits s r) where
  -- The rotated cases.
  pub paint_rotated-Shows :
      (dst : List ℕ) × (paint_rotated s r s.device.pixels ≡ some dst)
      × Shows s (InRect r) s.device.pixels dst
  unfolding paint_rotated paint_row paint_cell
  paint_rotated-Shows = rows-Shows s r fits (paint_cell s r) (λ y x dst hy hx hd.
      put-Put s.device s.src_buffer _ _ _ dst (in_source s r fits y x hy hx) hd)

  index_add :
      (width row col : ℤ) (x : ℕ)
      → pos 0 ≤ℤ col
      → index width row (col +ℤ pos x) ≡ index width row col + x
  index_add width row col x h = omega (arith, int_step)
    where
      int_step : pos_part (col +ℤ pos x) ≡ pos_part col + x
      int_step = omega (int_laws, parts_disjoint (col +ℤ pos x), parts_disjoint col)

  -- The identity case, once the rectangle is cropped to the panel.
  pub copy_rows-Shows :
      ((row col : ℤ) → placed s row col ≡ (col, row))
      → r.x +ℤ r.w ≤ℤ s.device.xres
      → r.y +ℤ r.h ≤ℤ s.device.yres
      → (dst : List ℕ) × (copy_rows s r s.device.pixels ≡ some dst)
        × Shows s (InRect r) s.device.pixels dst
  unfolding copy_rows copy_row
  copy_rows-Shows same across down = rows-Shows s r fits _ (λ y x dst hy hx hd.
      let row = r.y +ℤ pos y in
      let col = r.x +ℤ pos x in
      rw
        (
          same row col,
          ← index_add s.src_width row r.x x fits.left,
          ← index_add s.device.xres row r.x x fits.left,
        )
        (Put-inside s.device s.src_buffer col row (source_index s row col) dst
          (in_source s r fits y x hy hx) hd
          (omega (int_laws, parts_disjoint r.w, parts_disjoint r.h))))
