-- ===== src/Screen/Damage/Merge.antt =====
-- Updates that are merged: what is pending covers them, and the next repaint shows them.
use rmcast.Base.{ℕ, ◌≡◌, ◌⊎◌, inl, inr, refl, some, true, false, arith, get_elem?, Bool-cases}
use rmcast.Base.Int.{ℤ, ◌+ℤ◌, int_laws, min_ℤ_parts, max_ℤ_parts}
use rmcast.Screen.{Rect, Screen}
use rmcast.Screen.Blit.Cells.{OnPanel}
use rmcast.Screen.Blit.Shows.{placed, panel_index, source_index, Shows}
use rmcast.Screen.Blit.Paint.{InRect}
use rmcast.Screen.Blit.Region.{IsSized, Visible}
use rmcast.Screen.Repaint.{repaint}
use rmcast.Screen.Repaint.Correct.{redrawn, redrawn_pixels, repaint-redrawn}
use rmcast.Screen.Damage.{merge, is_bad_merge, set_pending, commit_updates}

merge_left : (a b : Rect) (row col : ℤ) → InRect a row col → InRect (merge a b) row col
unfolding merge
merge_left a b row col (h, i, j, k) = omega (
  int_laws,
  min_ℤ_parts b.x a.x,
  min_ℤ_parts b.y a.y,
  max_ℤ_parts (b.x +ℤ b.w) (a.x +ℤ a.w),
  max_ℤ_parts (b.y +ℤ b.h) (a.y +ℤ a.h),
)

merge_right : (a b : Rect) (row col : ℤ) → InRect b row col → InRect (merge a b) row col
unfolding merge
merge_right a b row col (h, i, j, k) = omega (
  int_laws,
  min_ℤ_parts b.x a.x,
  min_ℤ_parts b.y a.y,
  max_ℤ_parts (b.x +ℤ b.w) (a.x +ℤ a.w),
  max_ℤ_parts (b.y +ℤ b.h) (a.y +ℤ a.h),
)

-- Unless the merge is bad, what was pending stays pending, and the new rectangle is added to it;
-- the panel and the device's updates are left alone.
pub commit_updates_pending :
    (s : Screen) (new : Rect) (row col : ℤ)
    → is_bad_merge s.update_info.rect new ≡ false
    → (s.update_info.has_update ≡ true
        → InRect s.update_info.rect row col
        → InRect (commit_updates s new).update_info.rect row col)
      × (InRect new row col → InRect (commit_updates s new).update_info.rect row col)
      × ((commit_updates s new).update_info.has_update ≡ true)
      × ((commit_updates s new).device ≡ s.device)
unfolding commit_updates
commit_updates_pending s new row col fine = elim (Bool-cases s.update_info.has_update) [
  | inl e ↦
      rw (e, fine)
        (
          λ _ i. merge_left s.update_info.rect new row col i,
          λ i. merge_right s.update_info.rect new row col i,
          refl,
          refl,
        )
  | inr e ↦ rw e (λ h i. cc, λ i. i, refl, refl)
]

-- Two outcomes of `commit_updates`: with nothing pending, and a good merge.
commit_updates_first :
    (s : Screen) (new : Rect)
    → s.update_info.has_update ≡ false
    → commit_updates s new ≡ set_pending s new
unfolding commit_updates
commit_updates_first s new e = rw e

commit_updates_merged :
    (s : Screen) (new : Rect)
    → s.update_info.has_update ≡ true
    → is_bad_merge s.update_info.rect new ≡ false
    → commit_updates s new ≡ set_pending s (merge s.update_info.rect new)
unfolding commit_updates
commit_updates_merged s new e fine = ground arith

pub set_pending-Shows :
    (s : Screen) (r : Rect) (now : ℕ)
    → IsSized s
    → (t : Screen) × (repaint now (set_pending s r) ≡ some t)
      × Shows s (Visible s r) s.device.pixels t.device.pixels
unfolding set_pending
set_pending-Shows s r now sized =
    let (dst, q, run, shows, covers) =
      repaint-redrawn now (set_pending s r)
        (record { source = sized.source; panel = sized.panel }) in
    (
      redrawn now (set_pending s r) dst q,
      run,
      rw (redrawn_pixels now (set_pending s r) dst q)
          (record { same_length = shows.same_length; shown = shows.shown; kept = shows.kept }),
    )

-- Two updates that merge well, and then a repaint, with buffers of the sizes of their images: the
-- panel shows every source pixel of both rectangles that has its place on the panel at that
-- place.
pub merged_updates_are_shown :
    (s : Screen) (new : Rect) (now : ℕ) (row col : ℤ)
    → IsSized s
    → s.update_info.has_update ≡ true
    → is_bad_merge s.update_info.rect new ≡ false
    → Visible s s.update_info.rect row col ⊎ Visible s new row col
    → OnPanel s.device (placed s row col).0 (placed s row col).1
    → (t : Screen) × (repaint now (commit_updates s new) ≡ some t)
      × (get_elem? t.device.pixels (panel_index s (placed s row col).0 (placed s row col).1)
          ≡ get_elem? s.src_buffer (source_index s row col))
merged_updates_are_shown s new now row col sized e fine v o =
    let merged = merge s.update_info.rect new in
    let (t, run, shows) = set_pending-Shows s merged now sized in
    (t, rw (commit_updates_merged s new e fine) run, shows.shown row col (inside v) o)
  where
    inside :
        Visible s s.update_info.rect row col ⊎ Visible s new row col
        → Visible s (merge s.update_info.rect new) row col
    inside (inl (i, a, b, c, d)) = (merge_left s.update_info.rect new row col i, a, b, c, d)
    inside (inr (i, a, b, c, d)) = (merge_right s.update_info.rect new row col i, a, b, c, d)
