-- ===== src/Screen/Damage/Lost.antt =====
-- Updates that merge badly: the pending rectangle is flushed without being painted.
use rmcast.Base.{ℕ, ◌≡◌, refl, subst, List, some, true, arith, get_elem?}
use rmcast.Base.Int.{ℤ}
use rmcast.Screen.{Rect, Screen, device_update}
use rmcast.Screen.Blit.Cells.{OnPanel, place_injective}
use rmcast.Screen.Blit.Shows.{placed, panel_index}
use rmcast.Screen.Blit.Paint.{InRect}
use rmcast.Screen.Blit.Region.{IsSized}
use rmcast.Screen.Repaint.{repaint, waveform_mode}
use rmcast.Screen.Damage.{is_bad_merge, set_pending, commit_updates}
use rmcast.Screen.Damage.Merge.{set_pending-Shows}

abbrev flushed : Screen → Screen
flushed s = record s { device = device_update s.device s.update_info.rect (waveform_mode s) }

commit_updates-flushed :
    (s : Screen) (new : Rect)
    → s.update_info.has_update ≡ true
    → is_bad_merge s.update_info.rect new ≡ true
    → commit_updates s new ≡ set_pending (flushed s) new
unfolding commit_updates
commit_updates-flushed s new e bad = ground arith

flushed-IsSized : (s : Screen) → IsSized s → IsSized (flushed s)
unfolding device_update
flushed-IsSized s sized = record { source = sized.source; panel = sized.panel }

flushed_pixels : (s : Screen) → (flushed s).device.pixels ≡ s.device.pixels
unfolding device_update
flushed_pixels s = refl

flushed_panel : (s : Screen) (c t : ℤ) → OnPanel s.device c t → OnPanel (flushed s).device c t
unfolding device_update
flushed_panel s c t o = o

flushed_index : (s : Screen) (c t : ℤ) → panel_index (flushed s) c t ≡ panel_index s c t
unfolding device_update
flushed_index s c t = refl

-- With buffers of the sizes of their images, when a pending rectangle and a new one merge badly,
-- `commit_updates` sends the device the pending rectangle in source coordinates, with the panel's
-- pixels as they were, and forgets it: after the next repaint the place on the panel of any
-- source position that the new rectangle does not hold still shows what it showed before.
pub flushed_update_is_lost :
    (s : Screen) (new : Rect) (now : ℕ) (row col : ℤ)
    → IsSized s
    → s.update_info.has_update ≡ true
    → is_bad_merge s.update_info.rect new ≡ true
    → (InRect new row col → ⊥)
    → OnPanel s.device (placed s row col).0 (placed s row col).1
    → ((commit_updates s new).device ≡ device_update s.device s.update_info.rect (waveform_mode s))
      × ((t : Screen) × (repaint now (commit_updates s new) ≡ some t)
          × (get_elem? t.device.pixels (panel_index s (placed s row col).0 (placed s row col).1)
              ≡ get_elem? s.device.pixels
                  (panel_index s (placed s row col).0 (placed s row col).1)))
unfolding set_pending
flushed_update_is_lost s new now row col sized e bad out o =
    let (t, run, shows) = set_pending-Shows (flushed s) new now (flushed-IsSized s sized) in
    (
      rw (commit_updates-flushed s new e bad) refl,
      (
        t,
        rw (commit_updates-flushed s new e bad) run,
        subst (λ (i : ℕ). get_elem? t.device.pixels i ≡ get_elem? s.device.pixels i)
            (flushed_index s (placed s row col).0 (placed s row col).1)
            (subst
              (λ (before : List ℕ).
                get_elem? t.device.pixels
                  (panel_index (flushed s) (placed s row col).0 (placed s row col).1)
                ≡ get_elem? before
                    (panel_index (flushed s) (placed s row col).0 (placed s row col).1))
              (flushed_pixels s)
              (shows.kept (placed s row col).0 (placed s row col).1 (flushed_panel s _ _ o)
                (λ row' col' v same.
                  let (p, q) =
                    place_injective s.effective s.src_width s.src_height row' col' row col same in
                  out (subst (λ (rc : ℤ × ℤ). InRect new rc.0 rc.1) (λ i. (p i, q i)) v.0)))),
      ),
    )
