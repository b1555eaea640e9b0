-- ===== src/Screen/Setup/Resize.antt =====
-- A new source, a new orientation, and what they leave for the next repaint.
use rmcast.Base.{
  ℕ, ◌*◌, ◌≡◌, ◌⊎◌, inl, inr, refl, length, replicate, length-replicate, none, some, Bool, true,
  false, ◌&&◌, if◌then◌else◌, arith, get_elem?, ap,
}
use mathlib.Core.Bool.{xor}
use rmcast.Base.Int.{
  ℤ, pos, pos_part, neg_part, ◌≤ℤ◌, ◌<ℤ◌, leb_ℤ-cases, ltb_ℤ-cases, eq_ℤ-cases, int_laws, eq_ℤ,
  ltb_ℤ,
}
use rmcast.Orientation.{
  Orientation, portrait, landscape_cw, inverted_portrait, landscape_ccw, auto, is_same,
}
use rmcast.Screen.{Rect, Device, Screen}
use rmcast.Screen.Blit.{place, index}
use rmcast.Screen.Blit.Cells.{OnPanel}
use rmcast.Screen.Blit.Region.{IsSized, Visible}
use rmcast.Screen.Input.{unplace}
use rmcast.Screen.Repaint.{repaint}
use rmcast.Screen.Damage.{set_pending}
use rmcast.Screen.Damage.Merge.{set_pending-Shows}
use rmcast.Screen.Setup.{resolve, create_framebuf, fits_panel, set_effective_orientation}

-- For a panel whose buffer has its size: a source is refused exactly if it has no pixels.
-- Otherwise the screen takes its size, with a buffer to match, keeps the device, and has the
-- orientation that `resolve` gives.
pub create_framebuf-IsSized :
    (s : Screen) (sw sh : ℤ)
    → length s.device.pixels ≡ pos_part s.device.xres * pos_part s.device.yres
    → (((sw ≤ℤ pos 0) ⊎ (sh ≤ℤ pos 0)) × (create_framebuf s sw sh ≡ none))
      ⊎ ((pos 0 <ℤ sw)
          × (pos 0 <ℤ sh)
          × ((t : Screen) × (create_framebuf s sw sh ≡ some t)
              × IsSized t
              × (t.src_width ≡ sw)
              × (t.src_height ≡ sh)
              × (t.device ≡ s.device)
              × (t.effective ≡ resolve s sw sh)))
unfolding create_framebuf
create_framebuf-IsSized s sw sh panel = elim (leb_ℤ-cases sw (pos 0)) [
  | inl (e, h) ↦ inl (inl h, rw e)
  | inr (e, h) ↦ elim (leb_ℤ-cases sh (pos 0)) [
    | inl (f, k) ↦ inl (inr k, rw (e, f))
    | inr (f, k) ↦ inr (
      h,
      k,
      (
        record s {
          src_width = sw;
          src_height = sh;
          effective = resolve s sw sh;
          src_buffer = replicate (pos_part sw * pos_part sh) 0;
        },
        rw (e, f),
        record { source = length-replicate (pos_part sw * pos_part sh) 0; panel = panel },
        refl,
        refl,
        refl,
        refl,
      ),
    )
  ]
]

both : (a b c d : ℤ) → (eq_ℤ a b && eq_ℤ c d) ≡ true → (a ≡ b) × (c ≡ d)
both a b c d e = ground (arith, eq_ℤ-cases a b, eq_ℤ-cases c d)

-- A column and a row of the source.
abbrev pub InSource : ℤ → ℤ → ℤ → ℤ → Type 0
InSource sw sh col row = (pos 0 ≤ℤ col) × (col <ℤ sw) × (pos 0 ≤ℤ row) × (row <ℤ sh)

abbrev Tiles : Device → Orientation → ℤ → ℤ → ℤ → ℤ → ℤ → ℤ → Type 0
Tiles d o sw sh x y row col =
    (OnPanel d x y → InSource sw sh (unplace o sw sh x y).0 (unplace o sw sh x y).1)
    × (InSource sw sh col row → OnPanel d (place o sw sh row col).0 (place o sw sh row col).1)

same_shape :
    (d : Device) (sw sh x y row col : ℤ)
    → (sw ≡ d.xres) × (sh ≡ d.yres)
    → Tiles d portrait sw sh x y row col × Tiles d inverted_portrait sw sh x y row col
unfolding place unplace
same_shape d sw sh x y row col (e, f) =
    let w = ap pos_part e in
    let w' = ap neg_part e in let h = ap pos_part f in let h' = ap neg_part f in omega int_laws

turned_shape :
    (d : Device) (sw sh x y row col : ℤ)
    → (sw ≡ d.yres) × (sh ≡ d.xres)
    → Tiles d landscape_cw sw sh x y row col × Tiles d landscape_ccw sw sh x y row col
unfolding place unplace
turned_shape d sw sh x y row col (e, f) =
    let w = ap pos_part e in
    let w' = ap neg_part e in let h = ap pos_part f in let h' = ap neg_part f in omega int_laws

-- Where `fits_panel` holds, nothing is cropped and no border is left: every position of the panel
-- is the place of a source pixel, and every source pixel has its place on the panel.
pub fits_panel_tiles :
    (d : Device) (o : Orientation) (sw sh x y row col : ℤ)
    → fits_panel o sw sh d.xres d.yres ≡ true
    → (OnPanel d x y → InSource sw sh (unplace o sw sh x y).0 (unplace o sw sh x y).1)
      × (InSource sw sh col row → OnPanel d (place o sw sh row col).0 (place o sw sh row col).1)
unfolding fits_panel
fits_panel_tiles d portrait sw sh x y row col e =
    (same_shape d sw sh x y row col (both sw d.xres sh d.yres e)).0
fits_panel_tiles d inverted_portrait sw sh x y row col e =
    (same_shape d sw sh x y row col (both sw d.xres sh d.yres e)).1
fits_panel_tiles d landscape_cw sw sh x y row col e =
    (turned_shape d sw sh x y row col (both sw d.yres sh d.xres e)).0
fits_panel_tiles d landscape_ccw sw sh x y row col e =
    (turned_shape d sw sh x y row col (both sw d.yres sh d.xres e)).1
fits_panel_tiles d auto sw sh x y row col e = cc

eq_ℤ_refl : (a : ℤ) → eq_ℤ a a ≡ true
eq_ℤ_refl a = ground (arith, eq_ℤ-cases a a)

upright_fits :
    (x y : ℤ) (b : Bool) → fits_panel (if xor b b then landscape_ccw else portrait) x y x y ≡ true
unfolding fits_panel xor
upright_fits x y true = rw (eq_ℤ_refl x, eq_ℤ_refl y)
upright_fits x y false = rw (eq_ℤ_refl x, eq_ℤ_refl y)

turned_fits :
    (x y : ℤ)
    → fits_panel (if xor (ltb_ℤ x y) (ltb_ℤ y x) then landscape_ccw else portrait) y x x y ≡ true
unfolding fits_panel xor
turned_fits x y = ground (
  arith,
  ltb_ℤ-cases x y,
  ltb_ℤ-cases y x,
  eq_ℤ-cases x y,
  eq_ℤ-cases y x,
  eq_ℤ_refl x,
  eq_ℤ_refl y,
)

-- With the orientation left on auto, a source of the panel's shape, upright or turned, is given an
-- orientation in which it fits the panel exactly.
pub resolve-fits_panel :
    (s : Screen) (sw sh : ℤ)
    → s.requested ≡ auto
    → ((sw ≡ s.device.xres) × (sh ≡ s.device.yres)) ⊎ ((sw ≡ s.device.yres) × (sh ≡ s.device.xres))
    → fits_panel (resolve s sw sh) sw sh s.device.xres s.device.yres ≡ true
unfolding resolve is_same
resolve-fits_panel s sw sh e (inl (w, h)) =
    rw (w, h, e, resolve) (upright_fits s.device.xres s.device.yres _)
resolve-fits_panel s sw sh e (inr (w, h)) =
    rw (w, h, e, resolve) (turned_fits s.device.xres s.device.yres)

abbrev whole_source : Screen → Rect
whole_source s = record { x = pos 0; y = pos 0; w = s.src_width; h = s.src_height }

set_effective_orientation_lem :
    (s : Screen) (o : Orientation)
    → pos 0 <ℤ s.src_width
    → pos 0 <ℤ s.src_height
    → is_same o auto ≡ false
    → is_same s.effective o ≡ false
    → set_effective_orientation s o ≡ set_pending (record s { effective = o }) (whole_source s)
unfolding set_effective_orientation set_pending
set_effective_orientation_lem s o hw hh ne ch =
    ground (arith, ltb_ℤ-cases (pos 0) s.src_width, ltb_ℤ-cases (pos 0) s.src_height)

whole :
    (s : Screen) (row col : ℤ)
    → InSource s.src_width s.src_height col row
    → Visible s (whole_source s) row col
whole s row col (a, b, c, d) = omega int_laws

-- Where the source has pixels and the buffers have the sizes of their images, a change to another
-- definite orientation marks the whole source as pending, so that the next repaint shows every
-- source pixel that has its place on the panel at that place under the new orientation.
pub set_effective_orientation_redraws :
    (s : Screen) (o : Orientation) (now : ℕ)
    → IsSized s
    → pos 0 <ℤ s.src_width
    → pos 0 <ℤ s.src_height
    → is_same o auto ≡ false
    → is_same s.effective o ≡ false
    → let turned = set_effective_orientation s o in
      (turned.effective ≡ o)
      × (turned.update_info.has_update ≡ true)
      × ((t : Screen) × (repaint now turned ≡ some t)
          × ((row col : ℤ)
              → InSource s.src_width s.src_height col row
              → let (c, r) = place o s.src_width s.src_height row col in
                OnPanel s.device c r
                → get_elem? t.device.pixels (index s.device.xres r c)
                  ≡ get_elem? s.src_buffer (index s.src_width row col)))
unfolding set_pending
set_effective_orientation_redraws s o now sized hw hh ne ch =
    let turned : Screen = record s { effective = o } in
    let (t, run, shows) =
      set_pending-Shows turned (whole_source s) now
        (record { source = sized.source; panel = sized.panel }) in
    rw (set_effective_orientation_lem s o hw hh ne ch)
      (refl, refl, (t, run, λ row col i on. shows.shown row col (whole s row col i) on))
