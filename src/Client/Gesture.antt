-- ===== src/Client/Gesture.antt =====
-- Touch and pen gestures.
use rmcast.Base.{
  ℕ, ◌≡◌, inl, inr, refl, sym, ap, ap₂, List, [], ◌∷◌, ◌++◌, append_assoc, append-nil, Option, none,
  some, Bool, true, false, if◌then◌else◌, length, ◌∙◌, Bool-cases,
}
use rmcast.Base.Int.{ℤ}
use rmcast.Screen.{Screen, Rect, RepaintMode, standard, fast, device_update}
use rmcast.Screen.Blit.{is_empty}
use rmcast.Screen.Blit.Region.{IsSized}
use rmcast.Screen.Input.{transform_input}
use rmcast.Screen.Repaint.{set_repaint_mode, repaint, refresh, start_repaint}
use rmcast.Screen.Repaint.Correct.{redrawn, repaint-redrawn}
use rmcast.Client.{
  Client, Pointer, button_left, button_none, send_button_press, set_mode, repainted, is_press,
  is_release, handle_touch,
}

-- A report of the digitizer.
pub record Touch : Type 0 where
  pub now : ℕ
  pub type : ℕ
  pub x : ℤ
  pub y : ℤ

pub handle_touches : Client → List Touch → Option Client
unfolding handle_touch
handle_touches c [] = some c
handle_touches c (t ∷ ts) = elim (handle_touch t.now c t.type t.x t.y) [
  | none ↦ none
  | some d ↦ handle_touches d ts
]

-- What the server is to be told of one report, and of all.
pointers_of : Screen → Touch → List Pointer
pointers_of s t =
    let (sx, sy) = transform_input s t.x t.y in
    let held : Pointer = record { x = sx; y = sy; buttons = button_left } in
    let let_go : Pointer = record { x = sx; y = sy; buttons = button_none } in
    if is_release t.type then held ∷ let_go ∷ [] else held ∷ []

pub all_pointers : Screen → List Touch → List Pointer
unfolding pointers_of
all_pointers s [] = []
all_pointers s (t ∷ ts) = pointers_of s t ++ all_pointers s ts

-- The repaint mode after a report.
pub mode_after : RepaintMode → List Touch → RepaintMode
mode_after mode [] = mode
mode_after mode (t ∷ ts) =
    mode_after (if is_release t.type then standard else if is_press t.type then fast else mode) ts

-- Two screens that turn input in the same way and have buffers of the same size.
record Alike (s t : Screen) : Type 0 where
  same_input : (x y : ℤ) → transform_input t x y ≡ transform_input s x y
  sized : IsSized s → IsSized t

redrawn-Alike :
    (now : ℕ) (s : Screen) (dst : List ℕ) (q : Rect)
    → length dst ≡ length s.device.pixels
    → Alike s (redrawn now s dst q)
unfolding refresh start_repaint device_update transform_input
redrawn-Alike now s dst q same = elim (Bool-cases (is_empty q)) [
  | inl e ↦ rw e (record {
    same_input = λ x y. refl;
    sized = λ z. record { source = z.source; panel = same ∙ z.panel };
  })
  | inr e ↦ rw e (record {
    same_input = λ x y. refl;
    sized = λ z. record { source = z.source; panel = same ∙ z.panel };
  })
]

redrawn_mode :
    (now : ℕ) (s : Screen) (dst : List ℕ) (q : Rect)
    → (redrawn now s dst q).repaint_mode ≡ s.repaint_mode
unfolding refresh start_repaint device_update
redrawn_mode now s dst q = elim (Bool-cases (is_empty q)) [ inl e ↦ rw e | inr e ↦ rw e ]

mode-Alike : (s : Screen) (mode : RepaintMode) → Alike s (set_repaint_mode s mode)
unfolding set_repaint_mode transform_input
mode-Alike s mode = record {
  same_input = λ x y. refl;
  sized = λ z. record { source = z.source; panel = z.panel };
}

Alike-trans : {s t u : Screen} → Alike s t → Alike t u → Alike s u
Alike-trans a b = record {
  same_input = λ x y. b.same_input x y ∙ a.same_input x y;
  sized = λ z. b.sized (a.sized z);
}

repaint-Alike :
    (now : ℕ) (s : Screen)
    → IsSized s
    → (t : Screen) × (repaint now s ≡ some t) × Alike s t × (t.repaint_mode ≡ s.repaint_mode)
repaint-Alike now s sized =
    let (dst, q, run, shows, covers) = repaint-redrawn now s sized in
    (
      redrawn now s dst q,
      run,
      redrawn-Alike now s dst q shows.same_length,
      redrawn_mode now s dst q,
    )

-- The part of `touch::handle_event` after the press was noted.
abbrev rest_of_touch : ℕ → Client → ℤ → ℤ → Bool → Option Client
rest_of_touch now c x y released =
    let pressed = send_button_press c x y button_left in
    if released
    then repainted now (set_mode (send_button_press pressed x y button_none) standard)
    else some pressed

abbrev reported : Screen → ℤ → ℤ → Bool → List Pointer
reported s x y released =
    let (sx, sy) = transform_input s x y in
    let held : Pointer = record { x = sx; y = sy; buttons = button_left } in
    let let_go : Pointer = record { x = sx; y = sy; buttons = button_none } in
    if released then held ∷ let_go ∷ [] else held ∷ []

repainted_lem :
    (now : ℕ) (c : Client) (s : Screen)
    → repaint now c.screen ≡ some s
    → repainted now c ≡ some (record c { screen = s })
unfolding repainted
repainted_lem now c s run = rw (run, repainted) refl

rest_of_touch_lem :
    (now : ℕ) (c : Client) (x y : ℤ) (released : Bool)
    → IsSized c.screen
    → (d : Client) × (rest_of_touch now c x y released ≡ some d)
      × (d.pointers ≡ c.pointers ++ reported c.screen x y released)
      × Alike c.screen d.screen
      × (d.screen.repaint_mode ≡ (if released then standard else c.screen.repaint_mode))
unfolding send_button_press set_mode transform_input
rest_of_touch_lem now c x y false sized = (
  send_button_press c x y button_left,
  refl,
  refl,
  record { same_input = λ a b. refl; sized = λ z. z },
  refl,
)
rest_of_touch_lem now c x y true sized =
    let ready = set_repaint_mode c.screen standard in
    let calm = mode-Alike c.screen standard in
    let (s, run, alike, mode) = repaint-Alike now ready (calm.sized sized) in
    (
      record (send_button_press (send_button_press c x y button_left) x y button_none) {
        screen = s;
      },
      repainted_lem now
          (set_mode (send_button_press (send_button_press c x y button_left) x y button_none)
            standard)
          s run,
      append_assoc c.pointers _ _,
      Alike-trans calm alike,
      mode,
    )

touch_lem :
    (t : Touch) (c : Client)
    → IsSized c.screen
    → (d : Client) × (handle_touch t.now c t.type t.x t.y ≡ some d)
      × (d.pointers ≡ c.pointers ++ pointers_of c.screen t)
      × Alike c.screen d.screen
      × (d.screen.repaint_mode ≡ (
          if is_release t.type
          then standard
          else if is_press t.type
          then fast
          else c.screen.repaint_mode))
unfolding handle_touch pointers_of transform_input
touch_lem t c sized = elim (Bool-cases (is_press t.type)) [
  | inr e ↦ rw e (rest_of_touch_lem t.now c t.x t.y (is_release t.type) sized)
  | inl e ↦ rw e (
      let (d, run, told, alike, mode) =
        rest_of_touch_lem t.now (set_mode c fast) t.x t.y (is_release t.type)
          ((mode-Alike c.screen fast).sized sized) in
      (d, run, told, Alike-trans (mode-Alike c.screen fast) alike, mode))
]

same_report : (s s' : Screen) (t : Touch) → Alike s s' → pointers_of s' t ≡ pointers_of s t
unfolding pointers_of
same_report s s' t alike =
    ap
      (λ (p : ℤ × ℤ).
        let held : Pointer = record { x = p.0; y = p.1; buttons = button_left } in
        let let_go : Pointer = record { x = p.0; y = p.1; buttons = button_none } in
        if is_release t.type then held ∷ let_go ∷ [] else held ∷ [])
      (alike.same_input t.x t.y)

same_pointers :
    (s s' : Screen) → Alike s s' → (ts : List Touch) → all_pointers s' ts ≡ all_pointers s ts
unfolding all_pointers
same_pointers s s' alike [] = refl
same_pointers s s' alike (t ∷ ts) =
    ap₂ (λ (a b : List Pointer). a ++ b) (same_report s s' t alike) (same_pointers s s' alike ts)

-- Where the screen's buffers have the sizes of their images, handling any reports does not fault.
-- The server is told of each in order: the left button at the place of the touch in the source's
-- coordinates, and after a release no button at the same place. The repaint mode is the standard
-- one after a release and the fast one after a press.
pub handle_touches_lem :
    (c : Client) (ts : List Touch)
    → IsSized c.screen
    → (d : Client) × (handle_touches c ts ≡ some d)
      × (d.pointers ≡ c.pointers ++ all_pointers c.screen ts)
      × (d.screen.repaint_mode ≡ mode_after c.screen.repaint_mode ts)
      × IsSized d.screen
unfolding handle_touches all_pointers mode_after
handle_touches_lem c [] sized = (c, refl, sym (append-nil c.pointers), refl, sized)
handle_touches_lem c (t ∷ ts) sized =
    let (d, run, told, alike, mode) = touch_lem t c sized in
    let (e, rest, told_rest, mode_rest, sized_rest) = handle_touches_lem d ts (alike.sized sized) in
    (
      e,
      rw (run, handle_touches) rest,
      told_rest
          ∙ ap₂ (λ (a b : List Pointer). a ++ b) told (same_pointers c.screen d.screen alike ts)
          ∙ append_assoc c.pointers (pointers_of c.screen t) (all_pointers c.screen ts),
      mode_rest ∙ ap (λ m. mode_after m ts) mode,
      sized_rest,
    )
