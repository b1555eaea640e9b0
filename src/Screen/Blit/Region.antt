-- ===== src/Screen/Blit/Region.antt =====
-- The rectangles of `blit_rotated`: clipped to the source, rotated, clamped to the panel.
use rmcast.Base.{◌*◌, ◌≡◌, inl, inr, length}
use rmcast.Base.Int.{ℤ, pos, pos_part, ◌≤ℤ◌, ◌<ℤ◌, int_laws, ltb_ℤ-cases}
use rmcast.Clip.{clip, clip-Within, clip_bounds}
use rmcast.Orientation.{Orientation, portrait, landscape_cw, inverted_portrait, landscape_ccw, auto}
use rmcast.Screen.{Rect, Screen}
use rmcast.Screen.Blit.{place, clip_to_source, landed, clamp_to_panel, clamp_size}
use rmcast.Screen.Blit.Cells.{OnPanel}
use rmcast.Screen.Blit.Shows.{placed}
use rmcast.Screen.Blit.Paint.{Fits, InRect}

-- The buffers have the sizes of their images.
pub record IsSized (s : Screen) : Type 0 where
  pub source : length s.src_buffer ≡ pos_part s.src_width * pos_part s.src_height
  pub panel : length s.device.pixels ≡ pos_part s.device.xres * pos_part s.device.yres

-- The pixels of a rectangle that exist in the source.
abbrev pub Visible : Screen → Rect → ℤ → ℤ → Type 0
Visible s r row col =
    InRect r row col
    × (pos 0 ≤ℤ row)
    × (row <ℤ s.src_height)
    × (pos 0 ≤ℤ col)
    × (col <ℤ s.src_width)

pub clip_to_source-InRect :
    (s : Screen) (r : Rect) (row col : ℤ)
    → InRect (clip_to_source s r) row col
    → Visible s r row col
unfolding clip_to_source
clip_to_source-InRect s r row col (a, b, c, d) =
    let down = (clip-Within s.src_height (record { start = r.y; size = r.h }) row).0 (a, b) in
    let across = (clip-Within s.src_width (record { start = r.x; size = r.w }) col).0 (c, d) in
    ((down.0.0, down.0.1, across.0.0, across.0.1), down.1, down.2, across.1, across.2)

pub Visible-InRect :
    (s : Screen) (r : Rect) (row col : ℤ)
    → Visible s r row col
    → InRect (clip_to_source s r) row col
unfolding clip_to_source
Visible-InRect s r row col ((a, b, c, d), e, f, g, h) =
    let down =
      (clip-Within s.src_height (record { start = r.y; size = r.h }) row).1 ((a, b), e, f) in
    let across =
      (clip-Within s.src_width (record { start = r.x; size = r.w }) col).1 ((c, d), g, h) in
    (down.0, down.1, across.0, across.1)

pub clip_to_source-Fits :
    (s : Screen) (r : Rect)
    → IsSized s
    → pos 0 <ℤ (clip_to_source s r).w
    → pos 0 <ℤ (clip_to_source s r).h
    → Fits s (clip_to_source s r)
unfolding clip_to_source
clip_to_source-Fits s r sized hw hh =
    let across = clip_bounds s.src_width (record { start = r.x; size = r.w }) in
    let down = clip_bounds s.src_height (record { start = r.y; size = r.h }) in
    record {
      left = across.0;
      top = down.0;
      right = across.1;
      bottom = down.1;
      wide = hw;
      high = hh;
      source = sized.source;
      panel = sized.panel;
    }

-- A rectangle of the panel that holds the place of every pixel of `Q` on the panel.
abbrev pub Covers : Screen → (ℤ → ℤ → Type 0) → Rect → Type 0
Covers s Q q =
    (row col : ℤ)
    → Q row col
    → OnPanel s.device (placed s row col).0 (placed s row col).1
    → InRect q (placed s row col).1 (placed s row col).0

pub landed-covers :
    (o : Orientation) (w h row col : ℤ) (r : Rect)
    → InRect r row col
    → InRect (landed o w h r) (place o w h row col).1 (place o w h row col).0
unfolding landed place
landed-covers portrait w h row col r i = i
landed-covers auto w h row col r i = i
landed-covers inverted_portrait w h row col r i = omega int_laws
landed-covers landscape_cw w h row col r i = omega int_laws
landed-covers landscape_ccw w h row col r i = omega int_laws

pub clamp_to_panel-InRect :
    (s : Screen) (r : Rect) (t c : ℤ)
    → OnPanel s.device c t
    → InRect r t c
    → InRect (clamp_to_panel s.device r) t c
unfolding clamp_to_panel clamp_size
clamp_to_panel-InRect s r t c (a, b, e, f) i =
    let down =
      (clip-Within s.device.yres (record { start = r.y; size = r.h }) t).1 ((i.0, i.1), e, f) in
    let across =
      (clip-Within s.device.xres (record { start = r.x; size = r.w }) c).1 ((i.2, i.3), a, b) in
    elim (ltb_ℤ-cases (clip s.device.xres (record { start = r.x; size = r.w })).size (pos 0)) [
      | inl (e₁, h₁) ↦ absurd (omega int_laws)
      | inr (e₁, h₁) ↦
          elim (ltb_ℤ-cases (clip s.device.yres (record { start = r.y; size = r.h })).size
            (pos 0)) [
              | inl (e₂, h₂) ↦ absurd (omega int_laws)
              | inr (e₂, h₂) ↦ rw (e₁, e₂) (down.0, down.1, across.0, across.1)
            ]
    ]
