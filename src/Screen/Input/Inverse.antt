-- ===== src/Screen/Input/Inverse.antt =====
-- `transform_input` against the places that `blit_rotated` paints.
use rmcast.Base.{◌≡◌, refl, sym, ap, subst, some, some-injective, get_elem?, arith, ◌∙◌, inl, inr}
use rmcast.Base.Int.{ℤ, pos, ◌-ℤ◌, ◌<ℤ◌, int_laws, leb_ℤ-cases}
use rmcast.Orientation.{Orientation, portrait, landscape_cw, inverted_portrait, landscape_ccw, auto}
use rmcast.Screen.{Rect, Screen}
use rmcast.Screen.Blit.{place, index, blit_rotated}
use rmcast.Screen.Blit.Cells.{OnPanel}
use rmcast.Screen.Blit.Shows.{placed}
use rmcast.Screen.Blit.Region.{IsSized, Visible}
use rmcast.Screen.Blit.Correct.{blit_rotated-Blits}
use rmcast.Screen.Input.{unplace, transform_input}

flip_twice : (a b : ℤ) → a -ℤ pos 1 -ℤ (a -ℤ pos 1 -ℤ b) ≡ b
flip_twice a b = omega int_laws

pair : {a b c d : ℤ} → a ≡ c → b ≡ d → ◌≡◌ {A = ℤ × ℤ} (a, b) (c, d)
pair e f = λ i. (e i, f i)

-- Where a pixel is painted, a touch is on that pixel.
unplace-place :
    (o : Orientation) (w h row col : ℤ)
    → unplace o w h (place o w h row col).0 (place o w h row col).1 ≡ (col, row)
unfolding unplace place
unplace-place portrait w h row col = refl
unplace-place auto w h row col = refl
unplace-place inverted_portrait w h row col = pair (flip_twice w col) (flip_twice h row)
unplace-place landscape_cw w h row col = pair refl (flip_twice h row)
unplace-place landscape_ccw w h row col = pair (flip_twice w col) refl

place-unplace :
    (o : Orientation) (w h x y : ℤ)
    → place o w h (unplace o w h x y).1 (unplace o w h x y).0 ≡ (x, y)
unfolding unplace place
place-unplace portrait w h x y = refl
place-unplace auto w h x y = refl
place-unplace inverted_portrait w h x y = pair (flip_twice w x) (flip_twice h y)
place-unplace landscape_cw w h x y = pair (flip_twice h x) refl
place-unplace landscape_ccw w h x y = pair refl (flip_twice w y)

transform_input-unplace :
    (s : Screen) (x y : ℤ)
    → pos 0 <ℤ s.src_width
    → pos 0 <ℤ s.src_height
    → transform_input s x y ≡ unplace s.effective s.src_width s.src_height x y
unfolding transform_input
transform_input-unplace s x y hw hh = elim (leb_ℤ-cases s.src_width (pos 0)) [
  | inl (e, h) ↦ absurd (omega arith)
  | inr (e, h) ↦ elim (leb_ℤ-cases s.src_height (pos 0)) [
    | inl (e', h') ↦ absurd (omega arith)
    | inr (e', h') ↦ rw (e, e')
  ]
]

-- Once the source has a size, a touch at the place of a source pixel is sent to the server at that
-- pixel, and a panel position is the place of the pixel to which a touch there is sent.
pub transform_input_inverse :
    (s : Screen) (x y row col : ℤ)
    → pos 0 <ℤ s.src_width
    → pos 0 <ℤ s.src_height
    → (transform_input s (placed s row col).0 (placed s row col).1 ≡ (col, row))
      × (placed s (transform_input s x y).1 (transform_input s x y).0 ≡ (x, y))
transform_input_inverse s x y row col hw hh = (
  transform_input-unplace s _ _ hw hh ∙ unplace-place s.effective s.src_width s.src_height row col,
  subst (λ (p : ℤ × ℤ). placed s p.1 p.0 ≡ (x, y)) (sym (transform_input-unplace s x y hw hh))
      (place-unplace s.effective s.src_width s.src_height x y),
)

-- After a blit of a source that has pixels, with buffers of the sizes of their images, a position
-- of the panel shows the very pixel to which a touch there is sent, if that pixel lies in the
-- blitted rectangle and in the source.
pub touch_on_shown_pixel :
    (s s' : Screen) (r q : Rect) (x y : ℤ)
    → IsSized s
    → pos 0 <ℤ s.src_width
    → pos 0 <ℤ s.src_height
    → blit_rotated s r ≡ some (s', q)
    → OnPanel s.device x y
    → Visible s r (transform_input s x y).1 (transform_input s x y).0
    → get_elem? s'.device.pixels (index s.device.xres y x)
      ≡ get_elem? s.src_buffer
          (index s.src_width (transform_input s x y).1 (transform_input s x y).0)
touch_on_shown_pixel s s' r q x y sized hw hh run o v =
    let (t, q', run', done) = blit_rotated-Blits s r sized in
    let same : t ≡ s' = ap (λ p. p.0) (some-injective _ _ (sym run' ∙ run)) in
    let back = (transform_input_inverse s x y (pos 0) (pos 0) hw hh).1 in
    let at_place =
      done.shows.shown (transform_input s x y).1 (transform_input s x y).0 v
        (subst (λ (p : ℤ × ℤ). OnPanel s.device p.0 p.1) (sym back) o) in
    subst
      (λ (u : Screen).
        get_elem? u.device.pixels (index s.device.xres y x)
        ≡ get_elem? s.src_buffer
            (index s.src_width (transform_input s x y).1 (transform_input s x y).0))
      same
      (subst
        (λ (p : ℤ × ℤ).
          get_elem? t.device.pixels (index s.device.xres p.1 p.0)
          ≡ get_elem? s.src_buffer
              (index s.src_width (transform_input s x y).1 (transform_input s x y).0))
        back at_place)
