-- ===== src/Manager/Input/Touches.antt =====
-- `FBController::touchEvent` (middleware/extension/src/qtfb/FBController.cpp): how often a gesture
-- asks for a full refresh.
use rmcast.Base.{
  ℕ, suc, ◌+◌, ◌≡◌, refl, ◌∙◌, ap, ap₂, inl, inr, List, [], ◌∷◌, ◌++◌, Bool, true, false, not, ◌&&◌,
  ◌||◌, if◌then◌else◌, ◌==◌, arith, Bool-cases, length,
}
use rmcast.Base.Int.{ℤ, pos, negsuc, eq_ℤ, ltb_ℤ}
use rmcast.Manager.{
  FbController, Signal, active_changed, drag_down, request_full_refresh, refresh_mode_changed,
}
use rmcast.Manager.Controller.{emit}
use rmcast.Manager.Input.{
  EventPoint, PointState, pressed, released, updated, stationary, note_point, touch_points,
  touch_event, note_five, is_bound, convert_point_to_qtfb_pixels,
}

-- How many full refreshes have been asked for.
pub refreshes : List Signal → ℕ
refreshes [] = 0
refreshes (active_changed ∷ es) = refreshes es
refreshes (drag_down ∷ es) = refreshes es
refreshes (request_full_refresh ∷ es) = suc (refreshes es)
refreshes (refresh_mode_changed ∷ es) = refreshes es

refreshes-append : (es fs : List Signal) → refreshes (es ++ fs) ≡ refreshes es + refreshes fs
unfolding refreshes
refreshes-append [] fs = omega arith
refreshes-append (active_changed ∷ es) fs = refreshes-append es fs
refreshes-append (drag_down ∷ es) fs = refreshes-append es fs
refreshes-append (request_full_refresh ∷ es) fs = omega (arith, refreshes-append es fs)
refreshes-append (refresh_mode_changed ∷ es) fs = refreshes-append es fs

-- The refresh flag and the count are as they were.
record Steady (c d : FbController) : Type 0 where
  flag : d.refreshed_screen_already ≡ c.refreshed_screen_already
  count : refreshes d.emitted ≡ refreshes c.emitted
  bound : d.framebuffer_id ≡ c.framebuffer_id

Steady-trans : {c d e : FbController} → Steady c d → Steady d e → Steady c e
Steady-trans a b = record {
  flag = b.flag ∙ a.flag;
  count = b.count ∙ a.count;
  bound = b.bound ∙ a.bound;
}

note_point-Steady :
    (n : ℕ) (state : PointState) (y : ℤ) (c : FbController)
    → (n == 1) ≡ false
    → Steady c (note_point n state y c)
unfolding note_point emit refreshes
note_point-Steady n pressed y c many = elim (Bool-cases (ltb_ℤ y (pos 100))) [
  | inl e ↦ rw (note_point, e) (record { flag = refl; count = refl; bound = refl })
  | inr e ↦ rw (note_point, e) (record { flag = refl; count = refl; bound = refl })
]
note_point-Steady n released y c many =
    elim (Bool-cases (ltb_ℤ (pos 100) y && (ltb_ℤ y (pos 400) && c.checking_gesture_drag_down))) [
      | inl e ↦
          rw (note_point, many, e)
            (record {
              flag = refl;
              count = omega (arith, refreshes-append c.emitted (drag_down ∷ []));
              bound = refl;
            })
      | inr e ↦ rw (note_point, many, e) (record { flag = refl; count = refl; bound = refl })
    ]
note_point-Steady n updated y c many = record { flag = refl; count = refl; bound = refl }
note_point-Steady n stationary y c many = record { flag = refl; count = refl; bound = refl }

touch_points-Steady :
    (n : ℕ) (ps : List EventPoint) (c : FbController)
    → (n == 1) ≡ false
    → Steady c (touch_points n ps c).0
unfolding touch_points
touch_points-Steady n [] c many = record { flag = refl; count = refl; bound = refl }
touch_points-Steady n (p ∷ ps) c many =
    let y = (convert_point_to_qtfb_pixels c p.position).1 in
    Steady-trans (note_point-Steady n p.state y c many)
      (touch_points-Steady n ps (note_point n p.state y c) many)

-- The events of a gesture in which no finger is ever alone on the screen.
unfoldable pub IsCrowded : List (List EventPoint) → Type 0
IsCrowded [] = Unit
IsCrowded (ps ∷ events) = ((length ps == 1) ≡ false) × IsCrowded events

pub touch_events : List (List EventPoint) → FbController → FbController
touch_events [] c = c
touch_events (ps ∷ events) c = touch_events events (touch_event ps c).0

-- Some event has five fingers on the screen.
pub has_five : List (List EventPoint) → Bool
has_five [] = false
has_five (ps ∷ events) = length ps == 5 || has_five events

record Noted (five : Bool) (c d : FbController) : Type 0 where
  flag : d.refreshed_screen_already ≡ (five || c.refreshed_screen_already)
  count :
      refreshes d.emitted
      ≡ refreshes c.emitted + (if five && not c.refreshed_screen_already then 1 else 0)
  bound : d.framebuffer_id ≡ c.framebuffer_id

note_five-Noted : (n : ℕ) (c : FbController) → Noted (n == 5) c (note_five n c)
unfolding note_five emit refreshes
note_five-Noted n c = elim (Bool-cases (n == 5)) [
  | inr e ↦ rw (note_five, e) (record { flag = refl; count = omega arith; bound = refl })
  | inl e ↦ elim (Bool-cases c.refreshed_screen_already) [
    | inl f ↦ simp (note_five, e, f) (record { flag = f; count = rw f (omega arith); bound = refl })
    | inr f ↦
        simp (note_five, e, f)
          (record {
            flag = refl;
            count = rw f (omega (arith, refreshes-append c.emitted (request_full_refresh ∷ [])));
            bound = refl;
          })
  ]
]

touch_event-Noted :
    (ps : List EventPoint) (c : FbController)
    → (length ps == 1) ≡ false
    → is_bound c ≡ true
    → Noted (length ps == 5) c (touch_event ps c).0
unfolding touch_event
touch_event-Noted ps c many bound =
    let five = note_five-Noted (length ps) c in
    let steady = touch_points-Steady (length ps) ps (note_five (length ps) c) many in
    rw (touch_event, bound)
      (record {
        flag = steady.flag ∙ five.flag;
        count = steady.count ∙ five.count;
        bound = steady.bound ∙ five.bound;
      })

budget :
    (five more flag : Bool) (n : ℕ)
    → n + (if five && not flag then 1 else 0) + (if more && not (five || flag) then 1 else 0)
      ≡ n + (if (five || more) && not flag then 1 else 0)
budget true true true n = omega arith
budget true true false n = omega arith
budget true false true n = omega arith
budget true false false n = omega arith
budget false true true n = omega arith
budget false true false n = omega arith
budget false false true n = omega arith
budget false false false n = omega arith

-- In a gesture in which no finger is ever alone on the screen, a controller with a key asks for one
-- full refresh if some event has five fingers and the refresh flag was not set before, and for none
-- otherwise.
pub touch_events-refreshes :
    (events : List (List EventPoint)) (c : FbController)
    → IsCrowded events
    → is_bound c ≡ true
    → refreshes (touch_events events c).emitted
      ≡ refreshes c.emitted + (if has_five events && not c.refreshed_screen_already then 1 else 0)
unfolding touch_events IsCrowded has_five is_bound
touch_events-refreshes [] c crowded bound = omega arith
touch_events-refreshes (ps ∷ events) c (many, crowded) bound =
    let n = touch_event-Noted ps c many bound in
    let d = (touch_event ps c).0 in
    let rest = touch_events-refreshes events d crowded (kept d n.bound) in
    rest
    ∙ ap₂ (λ (k : ℕ) (f : Bool). k + (if has_five events && not f then 1 else 0)) n.count n.flag
    ∙ budget (length ps == 5) (has_five events) c.refreshed_screen_already (refreshes c.emitted)
  where
    kept : (d : FbController) → d.framebuffer_id ≡ c.framebuffer_id → is_bound d ≡ true
    kept d e = ap (λ k. not (eq_ℤ k (negsuc 0))) e ∙ bound
