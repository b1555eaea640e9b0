-- ===== src/Screen/Tests.antt =====
-- The theorems on `app::screen` applied to a panel one pixel wide and two high, and a source of two
-- pixels in one row that is turned clockwise on it.
use rmcast.Base.{
  ◌≡◌, inl, refl, [], ◌∷◌, Option, none, some, true, false, arith, get_elem?, if◌then◌else◌,
}
use rmcast.Base.Int.{ℤ, pos, negsuc, ◌≤ℤ◌, eq_ℤ, leb_ℤ, ltb_ℤ, ◌*ℤ◌, ◌+ℤ◌, ◌-ℤ◌, max_ℤ, min_ℤ}
use Prim.Native.String.{String}
use text.Mathlib.Text.{◌==◌ as str_eq}
use rmcast.Orientation.{is_same, portrait, landscape_cw, auto}
use rmcast.Screen.{Rect, Device, Screen, fast, device_update}
use rmcast.Screen.Blit.{blit_rotated, index, place}
use rmcast.Screen.Blit.Cells.{OnPanel}
use rmcast.Screen.Blit.Shows.{Shows, placed, panel_index, source_index}
use rmcast.Screen.Blit.Region.{IsSized, Visible, Covers}
use rmcast.Screen.Blit.Correct.{Blitted, blit_rotated-Blits}
use rmcast.Screen.Input.{unplace, transform_input}
use rmcast.Screen.Input.Inverse.{transform_input_inverse, touch_on_shown_pixel}
use rmcast.Screen.Run.{Reached, created, reached_never_faults}
use rmcast.Screen.Repaint.{Status, repaint, event_loop, waveform_mode, by_mode}
use rmcast.Screen.Repaint.Correct.{Notes, repaint-Shows}
use rmcast.Screen.Damage.{merge, is_bad_merge, commit_updates}
use rmcast.Screen.Damage.Merge.{merged_updates_are_shown}
use rmcast.Screen.Damage.Stale.{damage_after_repaint}
use rmcast.Screen.Damage.Lost.{flushed_update_is_lost}
use rmcast.Screen.Setup.{
  VncConfig, starts_with_one, create, fits_panel, set_effective_orientation, configure,
}
use rmcast.Screen.Setup.Tuning.{known_encodings, Selects, configure_overrides}
use rmcast.Screen.Setup.Resize.{InSource, set_effective_orientation_redraws}

abbrev one_pixel : Rect
one_pixel = record { x = pos 0; y = pos 0; w = pos 1; h = pos 1 }

abbrev next_pixel : Rect
next_pixel = record { x = pos 1; y = pos 0; w = pos 1; h = pos 1 }

abbrev far_pixel : Rect
far_pixel = record { x = pos 9; y = pos 0; w = pos 1; h = pos 1 }

abbrev panel : Device
panel = record { xres = pos 1; yres = pos 2; pixels = 0 ∷ 0 ∷ []; updates = [] }

abbrev tiny : Screen
tiny = record {
  device = panel;
  update_info = record { rect = one_pixel; has_update = true };
  last_repaint = 0;
  repaint_mode = fast;
  standard_repaint_delay = 500;
  fast_repaint_delay = 16;
  standard_waveform_mode = 4;
  fast_waveform_mode = 2;
  requested = auto;
  effective = landscape_cw;
  src_buffer = 7 ∷ 9 ∷ [];
  src_width = pos 2;
  src_height = pos 1;
}

tiny-IsSized : IsSized tiny
tiny-IsSized = record { source = refl; panel = refl }

merges_well : is_bad_merge one_pixel next_pixel ≡ false
unfolding is_bad_merge ltb_ℤ ◌*ℤ◌ ◌+ℤ◌ ◌-ℤ◌ max_ℤ min_ℤ
merges_well = refl

merges_badly : is_bad_merge one_pixel far_pixel ≡ true
unfolding is_bad_merge ltb_ℤ ◌*ℤ◌ ◌+ℤ◌ ◌-ℤ◌ max_ℤ min_ℤ
merges_badly = refl

first-OnPanel : OnPanel panel (placed tiny (pos 0) (pos 0)).0 (placed tiny (pos 0) (pos 0)).1
unfolding place ◌-ℤ◌
first-OnPanel = omega arith

first_visible : Visible tiny one_pixel (pos 0) (pos 0)
unfolding ◌+ℤ◌
first_visible = omega arith

fits : fits_panel landscape_cw (pos 2) (pos 1) (pos 1) (pos 2) ≡ true
unfolding fits_panel eq_ℤ
fits = refl

not_auto : is_same portrait auto ≡ false
unfolding is_same
not_auto = refl

turns : is_same landscape_cw portrait ≡ false
unfolding is_same
turns = refl

blit_rotated-Blits_example :
    (s' : Screen) × (q : Rect) × (blit_rotated tiny one_pixel ≡ some (s', q))
    × Blitted tiny (Visible tiny one_pixel) s' q
blit_rotated-Blits_example = blit_rotated-Blits tiny one_pixel tiny-IsSized

repaint-Shows_example :
    (t : Screen) × (q : Rect) × (repaint 5 tiny ≡ some t)
    × Shows tiny (Visible tiny one_pixel) tiny.device.pixels t.device.pixels
    × Covers tiny (Visible tiny one_pixel) q
    × Notes 5 tiny t q
repaint-Shows_example = repaint-Shows 5 tiny tiny-IsSized

merged_updates_are_shown_example :
    (t : Screen) × (repaint 5 (commit_updates tiny next_pixel) ≡ some t)
    × (get_elem? t.device.pixels
          (panel_index tiny (placed tiny (pos 0) (pos 0)).0 (placed tiny (pos 0) (pos 0)).1)
        ≡ get_elem? tiny.src_buffer (source_index tiny (pos 0) (pos 0)))
merged_updates_are_shown_example =
    merged_updates_are_shown tiny next_pixel 5 (pos 0) (pos 0) tiny-IsSized refl merges_well
      (inl first_visible) first-OnPanel

flushed_update_is_lost_example :
    ((commit_updates tiny far_pixel).device ≡ device_update panel one_pixel (waveform_mode tiny))
    × ((t : Screen) × (repaint 5 (commit_updates tiny far_pixel) ≡ some t)
        × (get_elem? t.device.pixels
              (panel_index tiny (placed tiny (pos 0) (pos 0)).0 (placed tiny (pos 0) (pos 0)).1)
            ≡ get_elem? panel.pixels
                (panel_index tiny (placed tiny (pos 0) (pos 0)).0 (placed tiny (pos 0) (pos 0)).1)))
flushed_update_is_lost_example =
    flushed_update_is_lost tiny far_pixel 5 (pos 0) (pos 0) tiny-IsSized refl merges_badly
      (λ h. omega arith) first-OnPanel

transform_input_inverse_example :
    (transform_input tiny (placed tiny (pos 0) (pos 1)).0 (placed tiny (pos 0) (pos 1)).1
      ≡ (pos 1, pos 0))
    × (placed tiny (transform_input tiny (pos 0) (pos 1)).1 (transform_input tiny (pos 0) (pos 1)).0
        ≡ (pos 0, pos 1))
transform_input_inverse_example =
    transform_input_inverse tiny (pos 0) (pos 1) (pos 0) (pos 1) (omega arith) (omega arith)

touched_visible :
    Visible tiny one_pixel
      (transform_input tiny (pos 0) (pos 0)).1
      (transform_input tiny (pos 0) (pos 0)).0
unfolding transform_input unplace leb_ℤ ◌+ℤ◌ ◌-ℤ◌
touched_visible = omega arith

touch_on_shown_pixel_example :
    get_elem?
      (blit_rotated-Blits tiny one_pixel tiny-IsSized).0.device.pixels
      (index (pos 1) (pos 0) (pos 0))
    ≡ get_elem? tiny.src_buffer (
        index
          (pos 2)
          (transform_input tiny (pos 0) (pos 0)).1
          (transform_input tiny (pos 0) (pos 0)).0)
touch_on_shown_pixel_example =
    touch_on_shown_pixel tiny (blit_rotated-Blits tiny one_pixel tiny-IsSized).0 one_pixel
      (blit_rotated-Blits tiny one_pixel tiny-IsSized).1 (pos 0) (pos 0) tiny-IsSized (omega arith)
      (omega arith) (blit_rotated-Blits tiny one_pixel tiny-IsSized).2 (omega arith) touched_visible

set_effective_orientation_redraws_example :
    let turned = set_effective_orientation tiny portrait in
    (turned.effective ≡ portrait)
    × (turned.update_info.has_update ≡ true)
    × ((t : Screen) × (repaint 5 turned ≡ some t)
        × ((row col : ℤ)
            → InSource (pos 2) (pos 1) col row
            → let (c, r) = place portrait (pos 2) (pos 1) row col in
              OnPanel panel c r
              → get_elem? t.device.pixels (index (pos 1) r c)
                ≡ get_elem? tiny.src_buffer (index (pos 2) row col)))
set_effective_orientation_redraws_example =
    set_effective_orientation_redraws tiny portrait 5 tiny-IsSized (omega arith) (omega arith)
      not_auto turns

abbrev tight_environment : String → Option String
tight_environment name = if str_eq name "VNSEE_ENCODING" then some "TIGHT" else none

abbrev library_settings : VncConfig
library_settings = record {
  encodings = none;
  compress_level = pos 3;
  quality_level = pos 5;
  enable_jpeg = true;
}

abbrev twelve : String → ℤ
twelve text = pos 12

configure_overrides_example :
    let d = configure twelve tight_environment library_settings in
    (pos 0 ≤ℤ d.compress_level)
    × (d.compress_level ≤ℤ pos 9)
    × (tight_environment "VNCAST_COMPRESS_LEVEL" ≡ none → d.compress_level ≡ pos 0)
    × (d.quality_level ≡ negsuc 0)
    × (d.enable_jpeg ≡ false)
    × Selects twelve tight_environment library_settings known_encodings
    × (tight_environment "VNSEE_ENCODING" ≡ none
        → ((starts_with_one (tight_environment "VNCAST_PREFER_MONO1") ≡ true
              → d.encodings ≡ some "rcastmono1z rcastmono1 copyrect tight zrle hextile raw")
            × (starts_with_one (tight_environment "VNCAST_PREFER_MONO1") ≡ false
                → d.encodings ≡ some "copyrect tight zrle hextile raw")))
configure_overrides_example = configure_overrides twelve tight_environment library_settings

damage_after_repaint_example :
    (t : Screen) × (repaint 5 tiny ≡ some t)
    × ((commit_updates t next_pixel).update_info.rect
        ≡ by_mode fast next_pixel (merge one_pixel next_pixel))
damage_after_repaint_example = damage_after_repaint 5 tiny next_pixel tiny-IsSized refl merges_well

tiny_reached : Reached (create panel true auto (λ name. none))
tiny_reached = created panel true auto (λ name. none) refl

reached_never_faults_example :
    let s = create panel true auto (λ name. none) in
    (is_same s.effective auto ≡ false)
    × IsSized s
    × ((t : Screen) × (repaint 5 s ≡ some t))
    × ((t : Screen) × (st : Status) × (event_loop 5 6 s ≡ some (t, st)) × (st.quit ≡ false))
reached_never_faults_example =
    reached_never_faults (create panel true auto (λ name. none)) 5 6 tiny_reached
