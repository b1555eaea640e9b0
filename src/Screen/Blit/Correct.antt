-- ===== src/Screen/Blit/Correct.antt =====
-- What `blit_rotated` does to the panel.
use rmcast.Base.{ℕ, ◌≡◌, ◌⊎◌, inl, inr, refl, List, Option, some, subst, sym}
use rmcast.Base.Int.{ℤ, pos, ◌-ℤ◌, ◌≤ℤ◌, ◌<ℤ◌, int_laws, min_ℤ, min_ℤ_parts, leb_ℤ-cases}
use rmcast.Orientation.{Orientation, portrait, landscape_cw, inverted_portrait, landscape_ccw, auto}
use rmcast.Screen.{Rect, zero_rect, Screen}
use rmcast.Screen.Blit.{
  place, copy_rows, blit_identity, blit_turned, blit_by, blit_rotated, clip_to_source, finish,
  landed, clamp_to_panel,
}
use rmcast.Screen.Blit.Cells.{OnPanel}
use rmcast.Screen.Blit.Shows.{Shows, Shows-none, Shows-crop, placed}
use rmcast.Screen.Blit.Paint.{Fits, InRect}
use rmcast.Screen.Blit.Copies.{paint_rotated-Shows, copy_rows-Shows}
use rmcast.Screen.Blit.Region.{
  IsSized, Visible, clip_to_source-InRect, Visible-InRect, clip_to_source-Fits, Covers,
  landed-covers, clamp_to_panel-InRect,
}

-- What a blit of the pixels `Q` leaves: only the panel's pixels change, they show `Q`, and the
-- rectangle holds every cell that was painted.
pub record Blitted (s : Screen) (Q : ℤ → ℤ → Type 0) (s' : Screen) (q : Rect) : Type 0 where
  pub rest : s' ≡ record s { device = record (s.device) { pixels = s'.device.pixels } }
  pub shows : Shows s Q s.device.pixels s'.device.pixels
  pub covers : Covers s Q q

abbrev Blits : Screen → (ℤ → ℤ → Type 0) → Option (Screen × Rect) → Type 0
Blits s Q out = (s' : Screen) × (q : Rect) × (out ≡ some (s', q)) × Blitted s Q s' q

abbrev repainted : Screen → List ℕ → Screen
repainted s dst = record s { device = record (s.device) { pixels = dst } }

-- Nothing of `Q` is on the panel.
blit_nothing :
    (s : Screen) (Q : ℤ → ℤ → Type 0)
    → ((row col : ℤ) → Q row col → OnPanel s.device (placed s row col).0 (placed s row col).1 → ⊥)
    → Blitted s Q s zero_rect
blit_nothing s Q off = record {
  rest = refl;
  shows =
      Shows-crop s s.device.pixels (λ row col (e : ⊥). absurd e) (λ row col q o. off row col q o)
        (Shows-none s s.device.pixels (λ row col. ⊥) (λ row col e. e));
  covers = λ row col q o. absurd (off row col q o);
}

blit_turned-Blits : (s : Screen) (r : Rect) → Fits s r → Blits s (InRect r) (blit_turned s r)
unfolding blit_turned finish
blit_turned-Blits s r fits =
    let (dst, run, shows) = paint_rotated-Shows s r fits in
    (
      repainted s dst,
      clamp_to_panel s.device (landed s.effective s.src_width s.src_height r),
      rw (run, finish),
      record {
        rest = refl;
        shows = shows;
        covers = λ row col i o.
            clamp_to_panel-InRect s _ _ _ o
              (landed-covers s.effective s.src_width s.src_height row col r i);
      },
    )

module _ (s : Screen) (r : Rect) (fits : Fits s r)
    (same : (row col : ℤ) → placed s row col ≡ (col, row)) where
  abbrev across : ℤ
  across = min_ℤ r.w (s.device.xres -ℤ r.x)

  abbrev down : ℤ
  down = min_ℤ r.h (s.device.yres -ℤ r.y)

  abbrev cropped : Rect
  cropped = record r { w = across; h = down }

  on_panel :
      (row col : ℤ)
      → OnPanel s.device (placed s row col).0 (placed s row col).1
      → OnPanel s.device col row
  on_panel row col o = subst (λ (p : ℤ × ℤ). OnPanel s.device p.0 p.1) (same row col) o

  in_cropped :
      (row col : ℤ)
      → InRect r row col
      → OnPanel s.device (placed s row col).0 (placed s row col).1
      → InRect cropped row col
  in_cropped row col (a, b, c, d) o =
      let (e, f, g, h) = on_panel row col o in
      omega
        (int_laws, min_ℤ_parts r.w (s.device.xres -ℤ r.x), min_ℤ_parts r.h (s.device.yres -ℤ r.y))

  cropped_in : (row col : ℤ) → InRect cropped row col → InRect r row col
  cropped_in row col i =
      omega
        (int_laws, min_ℤ_parts r.w (s.device.xres -ℤ r.x), min_ℤ_parts r.h (s.device.yres -ℤ r.y))

  cropped-Fits : pos 0 <ℤ across → pos 0 <ℤ down → Fits s cropped
  cropped-Fits hw hh = record {
    left = fits.left;
    top = fits.top;
    right = omega (int_laws, fits.right, min_ℤ_parts r.w (s.device.xres -ℤ r.x));
    bottom = omega (int_laws, fits.bottom, min_ℤ_parts r.h (s.device.yres -ℤ r.y));
    wide = hw;
    high = hh;
    source = fits.source;
    panel = fits.panel;
  }

  blit_cropped :
      pos 0 <ℤ across
      → pos 0 <ℤ down
      → Blits s (InRect r) (finish s cropped (copy_rows s cropped s.device.pixels))
  unfolding finish
  blit_cropped hw hh =
      let (dst, run, shows) =
        copy_rows-Shows s cropped (cropped-Fits hw hh) same
          (omega (int_laws, min_ℤ_parts r.w (s.device.xres -ℤ r.x)))
          (omega (int_laws, min_ℤ_parts r.h (s.device.yres -ℤ r.y))) in
      (
        repainted s dst,
        clamp_to_panel s.device cropped,
        rw (run, finish),
        record {
          rest = refl;
          shows = Shows-crop s s.device.pixels cropped_in in_cropped shows;
          covers = λ row col i o. clamp_to_panel-InRect s cropped _ _ o (
              subst (λ (p : ℤ × ℤ). InRect cropped p.1 p.0) (sym (same row col))
                (in_cropped row col i o));
        },
      )

  empty_crop :
      (across ≤ℤ pos 0) ⊎ (down ≤ℤ pos 0)
      → (row col : ℤ) → InRect r row col
      → OnPanel s.device (placed s row col).0 (placed s row col).1
      → ⊥
  empty_crop h row col i o = let (a, b, c, d) = in_cropped row col i o in omega int_laws

  blit_identity-Blits : Blits s (InRect r) (blit_identity s r)
  unfolding blit_identity
  blit_identity-Blits = elim (leb_ℤ-cases across (pos 0)) [
    | inl (e, h) ↦ (s, zero_rect, rw e, blit_nothing s (InRect r) (empty_crop (inl h)))
    | inr (e, h) ↦ elim (leb_ℤ-cases down (pos 0)) [
      | inl (e', h') ↦ (s, zero_rect, rw (e, e'), blit_nothing s (InRect r) (empty_crop (inr h')))
      | inr (e', h') ↦ let (s', q, run, done) = blit_cropped h h' in (s', q, rw (e, e') run, done)
    ]
  ]

by_orientation :
    (o : Orientation) (s : Screen) (r : Rect)
    → s.effective ≡ o
    → Fits s r
    → Blits s (InRect r) (blit_by o s r)
unfolding blit_by place
by_orientation portrait s r e fits = blit_identity-Blits s r fits (λ row col. rw (e, place))
by_orientation auto s r e fits = blit_identity-Blits s r fits (λ row col. rw (e, place))
by_orientation inverted_portrait s r e fits = blit_turned-Blits s r fits
by_orientation landscape_cw s r e fits = blit_turned-Blits s r fits
by_orientation landscape_ccw s r e fits = blit_turned-Blits s r fits

-- Where the buffers have the sizes of their images, `blit_rotated` never reads or writes outside
-- of them. It changes nothing but the panel's pixels: each pixel of the rectangle that the source
-- has is shown at its place, if that is on the panel; every other cell of the panel keeps its
-- pixel, and the rectangle that it reports holds every painted cell.
pub blit_rotated-Blits :
    (s : Screen) (r : Rect)
    → IsSized s
    → (s' : Screen) × (q : Rect) × (blit_rotated s r ≡ some (s', q)) × Blitted s (Visible s r) s' q
unfolding blit_rotated
blit_rotated-Blits s r sized = elim (leb_ℤ-cases (clip_to_source s r).w (pos 0)) [
  | inl (e, h) ↦ (
    s,
    zero_rect,
    rw e,
    blit_nothing s (Visible s r)
        (λ row col v o. let (a, b, c, d) = Visible-InRect s r row col v in absurd (omega int_laws)),
  )
  | inr (e, h) ↦ elim (leb_ℤ-cases (clip_to_source s r).h (pos 0)) [
    | inl (e', h') ↦ (
      s,
      zero_rect,
      rw (e, e'),
      blit_nothing s (Visible s r) (λ row col v o.
          let (a, b, c, d) = Visible-InRect s r row col v in absurd (omega int_laws)),
    )
    | inr (e', h') ↦
        let (s', q, run, done) =
          by_orientation s.effective s (clip_to_source s r) refl
            (clip_to_source-Fits s r sized h h') in
        (
          s',
          q,
          rw (e, e') run,
          record {
            rest = done.rest;
            shows =
                Shows-crop s s.device.pixels (clip_to_source-InRect s r)
                  (λ row col v o. Visible-InRect s r row col v) done.shows;
            covers = λ row col v o. done.covers row col (Visible-InRect s r row col v) o;
          },
        )
  ]
]
