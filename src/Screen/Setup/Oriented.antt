-- ===== src/Screen/Setup/Oriented.antt =====
-- The effective orientation is a definite one from the start.
use rmcast.Base.{◌≡◌, inl, inr, refl, Bool, false, Bool-cases, ◌&&◌}
use rmcast.Base.Int.{ℤ, pos, ltb_ℤ}
use mathlib.Core.Bool.{xor}
use rmcast.Orientation.{
  Orientation, portrait, landscape_cw, inverted_portrait, landscape_ccw, auto, is_same,
}
use rmcast.Screen.{Device, Screen}
use rmcast.Screen.Setup.{Env, create, resolve, set_effective_orientation}

-- The effective orientation is not `Auto`.
abbrev pub IsOriented : Screen → Type 0
IsOriented s = is_same s.effective auto ≡ false

pub create-IsOriented :
    (d : Device) (b : Bool) (o : Orientation) (env : Env) → IsOriented (create d b o env)
unfolding create is_same
create-IsOriented d b portrait env = refl
create-IsOriented d b landscape_cw env = refl
create-IsOriented d b inverted_portrait env = refl
create-IsOriented d b landscape_ccw env = refl
create-IsOriented d b auto env = refl

pub resolve-IsOriented :
    (s : Screen) (sw sh : ℤ) → IsOriented s → is_same (resolve s sw sh) auto ≡ false
unfolding resolve is_same
resolve-IsOriented s sw sh h = elim (Bool-cases (is_same s.requested auto)) [
  | inr e ↦ rw (e, resolve) h
  | inl e ↦
      rw (e, resolve)
        (elim (Bool-cases (xor (ltb_ℤ s.device.xres s.device.yres) (ltb_ℤ sw sh))) [
          | inl f ↦ rw f refl
          | inr f ↦ rw f refl
        ])
]

pub set_effective_orientation-IsOriented :
    (s : Screen) (o : Orientation) → IsOriented s → IsOriented (set_effective_orientation s o)
unfolding set_effective_orientation
set_effective_orientation-IsOriented s o h = elim (Bool-cases (is_same o auto)) [
  | inl e ↦ rw e h
  | inr e ↦ elim (Bool-cases (is_same s.effective o)) [
    | inl f ↦ rw (e, f) h
    | inr f ↦ elim (Bool-cases (ltb_ℤ (pos 0) s.src_width && ltb_ℤ (pos 0) s.src_height)) [
      | inl g ↦ rw (e, f, g) e
      | inr g ↦ rw (e, f, g) e
    ]
  ]
]
