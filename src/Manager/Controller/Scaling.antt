-- ===== src/Manager/Controller/Scaling.antt =====
-- Rectangles and points that a scaling controller converts.
use rmcast.Base.{
  ℕ, ◌/◌, ◌<◌, ◌≡◌, refl, [], ◌∷◌, ◌++◌, some, true, false, arith, Bool-cases, inl, inr,
}
use rmcast.Base.Int.{ℤ, pos, ◌*ℤ◌}
use native.Mathlib.Nat.{div-eq_of_lt, div-zero, zero-div}
use rmcast.Manager.{Image, FbController, QRect}
use rmcast.Manager.Controller.{quot_ℤ, marked_update, request_update, scale_rect, empty_rect}

quot_pos : (a b : ℕ) → quot_ℤ (pos a) (pos b) ≡ pos (a / b)
unfolding quot_ℤ
quot_pos a b = ground (arith, div-zero a, zero-div b)

div_small : (a b : ℕ) → a < b → a / b ≡ 0
div_small a b h = div-eq_of_lt h

zero_mul : (z : ℤ) → pos 0 *ℤ z ≡ pos 0
unfolding ◌*ℤ◌
zero_mul z = ground arith

vanishes : (a b : ℕ) (z : ℤ) → a < b → quot_ℤ (pos a) (pos b) *ℤ z ≡ pos 0
vanishes a b z h = rw (quot_pos, div_small a b h) (zero_mul z)

-- When the image is stretched, the update of any rectangle that is smaller than the image and lies in
-- it asks for the rectangle of four zeros, wherever the rectangle lies. When it is not, the update
-- asks for the rectangle itself.
pub marked_update-scaled :
    (c : FbController) (image : Image) (w h x y across down : ℕ)
    → c.image ≡ some image
    → image.width ≡ pos w
    → image.height ≡ pos h
    → x < w
    → y < h
    → across < w
    → down < h
    → let rect : QRect = record { x = pos x; y = pos y; width = pos across; height = pos down } in
      (c.allow_scaling ≡ true → (marked_update rect c).updates ≡ c.updates ++ empty_rect ∷ [])
      × (c.allow_scaling ≡ false → (marked_update rect c).updates ≡ c.updates ++ rect ∷ [])
      × ((marked_update rect c).is_mid_paint ≡ true)
unfolding marked_update request_update scale_rect empty_rect
marked_update-scaled c image w h x y across down e ew eh a b d f = (
  λ s.
      rw (marked_update, e, s, scale_rect, ew, eh)
        (λ i.
          c.updates
          ++ record {
            x = vanishes x w c.item_width a i;
            y = vanishes y h c.item_height b i;
            width = vanishes across w c.item_width d i;
            height = vanishes down h c.item_height f i;
          }
            ∷ []),
  λ s. rw (marked_update, e, s) refl,
  elim (Bool-cases c.allow_scaling) [
    | inl s ↦ rw (marked_update, e, s) refl
    | inr s ↦ rw (marked_update, e, s) refl
  ],
)
