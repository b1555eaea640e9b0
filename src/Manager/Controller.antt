-- ===== src/Manager/Controller.antt =====
-- `FBController` (middleware/extension/src/qtfb/FBController.cpp): what its calls do to the
-- controller itself. Coordinates of the item are whole pixels.
pub mod Scaling
use rmcast.Base.{
  ℕ, ◌+◌, ◌/◌, List, [], ◌∷◌, ◌++◌, Option, none, some, Bool, true, false, not, ◌&&◌, if◌then◌else◌,
  ◌==◌, length,
}
use rmcast.Base.Int.{ℤ, pos, negsuc, pos_part, neg_part, sub_ℕ, ◌*ℤ◌, eq_ℤ, ltb_ℤ}
use rmcast.Manager.{
  Image, FbController, QRect, Signal, active_changed, drag_down, request_full_refresh,
  refresh_mode_changed, UserInputContents,
}

-- C++ `/` on `int`, which rounds towards 0, by a divisor that is not 0.
unfoldable pub quot_ℤ : ℤ → ℤ → ℤ
quot_ℤ a b =
    sub_ℕ (pos_part a / pos_part b + neg_part a / neg_part b)
      (pos_part a / neg_part b + neg_part a / pos_part b)

unfoldable pub emit : Signal → FbController → FbController
emit e c = record c { emitted = c.emitted ++ e ∷ [] }

-- `QQuickItem::update`
unfoldable pub request_update : QRect → FbController → FbController
request_update r c = record c { updates = c.updates ++ r ∷ [] }

unfoldable pub scale_rect : FbController → Image → QRect → QRect
scale_rect c image r = record {
  x = quot_ℤ r.x image.width *ℤ c.item_width;
  y = quot_ℤ r.y image.height *ℤ c.item_height;
  width = quot_ℤ r.width image.width *ℤ c.item_width;
  height = quot_ℤ r.height image.height *ℤ c.item_height;
}

unfoldable pub marked_update : QRect → FbController → FbController
marked_update rect c =
    let d = record c { is_mid_paint = true } in
    elim c.image [
      | none ↦ request_update rect d
      | some image ↦
          if c.allow_scaling
          then request_update (scale_rect c image rect) d
          else request_update rect d
    ]

unfoldable pub empty_rect : QRect
empty_rect = record { x = pos 0; y = pos 0; width = pos 0; height = pos 0 }

unfoldable pub set_active : Bool → FbController → FbController
set_active active c =
    marked_update empty_rect (emit active_changed (record c { is_active = active }))

unfoldable pub has_image : FbController → Bool
has_image c = elim c.image [ none ↦ false | some _ ↦ true ]

-- The lambda that `associateSHM` leaves for the event loop; `associated` is what
-- `isControllerAssociated` answers.
unfoldable pub finish_association : Bool → FbController → FbController
finish_association associated c =
    if not associated
    then set_active false (record c { image = none })
    else set_active (has_image c) c

-- What a paint draws: the image and whether it is stretched over the item, or nothing.
unfoldable pub paint : FbController → FbController × Option (Image × Bool)
paint c =
    let d = record c { is_mid_paint = false } in
    elim c.image [
      | none ↦ (d, none)
      | some image ↦ (d, if c.is_active then some (image, c.allow_scaling) else none)
    ]

unfoldable pub set_allow_scaling : Bool → FbController → FbController
set_allow_scaling a c = record c { allow_scaling = a }

unfoldable pub set_refresh_mode : ℤ → FbController → FbController
set_refresh_mode rm c =
    if not (eq_ℤ rm c.refresh_mode)
    then emit refresh_mode_changed (record c { refresh_mode = rm })
    else c
