-- ===== src/Sensor/Turns.antt =====
-- What a report of the sensor does to the screen.
use rmcast.Base.{
  arith, ◌≡◌, ◌⊎◌, inl, inr, refl, sym, ap, subst, ◌∙◌, none, some, true, false, ◌&&◌, Bool-cases,
}
use rmcast.Base.Int.{pos, ltb_ℤ}
use rmcast.Orientation.{
  Orientation, auto, landscape_cw, landscape_ccw, is_same, orientation_from_string,
}
use rmcast.Screen.{Screen}
use rmcast.Screen.Setup.{Env, set_effective_orientation}
use Prim.Native.String.{String}
use rmcast.Sensor.{
  portrait_up, portrait_down, landscape_left, landscape_right, unknown, parse_env,
  DeviceOrientation, map_device_to_blit, on_change,
}

takes :
    (s : Screen) (o : Orientation)
    → is_same o auto ≡ false
    → ((is_same s.effective o ≡ true) × (set_effective_orientation s o ≡ s))
      ⊎ ((set_effective_orientation s o).effective ≡ o)
unfolding set_effective_orientation
takes s o e = elim (Bool-cases (is_same s.effective o)) [
  | inl f ↦ rw (e, f) (inl (refl, refl))
  | inr f ↦ elim (Bool-cases (ltb_ℤ (pos 0) s.src_width && ltb_ℤ (pos 0) s.src_height)) [
    | inl g ↦ rw (e, f, g) (inr refl)
    | inr g ↦ rw (e, f, g) (inr refl)
  ]
]

is_same_self : (a : Orientation) → is_same a a ≡ true
unfolding is_same
is_same_self Orientation.portrait = refl
is_same_self Orientation.landscape_cw = refl
is_same_self Orientation.inverted_portrait = refl
is_same_self Orientation.landscape_ccw = refl
is_same_self Orientation.auto = refl

is_same-eq : (a b : Orientation) → is_same a b ≡ true → a ≡ b
unfolding is_same
is_same-eq Orientation.portrait b e = ground arith
is_same-eq Orientation.landscape_cw b e = ground arith
is_same-eq Orientation.inverted_portrait b e = ground arith
is_same-eq Orientation.landscape_ccw b e = ground arith
is_same-eq Orientation.auto b e = ground arith

-- What a report of a direction does, by the variable of the environment that is about it: without the
-- variable the screen turns to `fallback`; with it, to the orientation that the variable names, if that
-- is a definite one, and else nothing changes.
pub record Turns (env : Env) (s : Screen) (d : DeviceOrientation) (variable : String)
    (fallback : Orientation) : Type 0 where
  pub by_default : env variable ≡ none → (on_change env s d).effective ≡ fallback
  pub by_name :
      (v : String)
      → env variable ≡ some v
      → is_same (orientation_from_string v) auto ≡ false
      → (on_change env s d).effective ≡ orientation_from_string v
  pub undecided :
      (v : String)
      → env variable ≡ some v
      → is_same (orientation_from_string v) auto ≡ true
      → on_change env s d ≡ s

effective_lem :
    (s : Screen) (o : Orientation)
    → is_same o auto ≡ false
    → (set_effective_orientation s o).effective ≡ o
effective_lem s o e = elim (takes s o e) [
  | inl (same, still) ↦ ap (λ (t : Screen). t.effective) still ∙ is_same-eq s.effective o same
  | inr turned ↦ turned
]

parse_env_unset :
    (env : Env) (variable : String) (fallback : Orientation)
    → env variable ≡ none
    → parse_env env variable fallback ≡ fallback
unfolding parse_env
parse_env_unset env variable fallback e = rw (parse_env, e) refl

parse_env_set :
    (env : Env) (variable : String) (fallback : Orientation) (v : String)
    → env variable ≡ some v
    → parse_env env variable fallback ≡ orientation_from_string v
unfolding parse_env
parse_env_set env variable fallback v e = rw (parse_env, e) refl

-- `on_change` for a direction whose orientation is that of one variable.
turns :
    (env : Env) (s : Screen) (d : DeviceOrientation) (variable : String) (fallback : Orientation)
    → map_device_to_blit env d ≡ parse_env env variable fallback
    → is_same fallback auto ≡ false
    → Turns env s d variable fallback
unfolding on_change parse_env
turns env s d variable fallback maps definite = record {
  by_default = λ e.
      let o : map_device_to_blit env d ≡ fallback =
        maps ∙ parse_env_unset env variable fallback e in
      rw (on_change, o, definite) (effective_lem s fallback definite);
  by_name = λ v e f.
      let o : map_device_to_blit env d ≡ orientation_from_string v =
        maps ∙ parse_env_set env variable fallback v e in
      rw (on_change, o, f) (effective_lem s (orientation_from_string v) f);
  undecided = λ v e f.
      let o : map_device_to_blit env d ≡ orientation_from_string v =
        maps ∙ parse_env_set env variable fallback v e in
      rw (on_change, o, f) refl;
}

-- A screen that has an orientation already is not changed by it.
still_there :
    (s : Screen) (o : Orientation)
    → is_same s.effective o ≡ true
    → set_effective_orientation s o ≡ s
unfolding set_effective_orientation
still_there s o e = elim (Bool-cases (is_same o auto)) [
  | inl f ↦ simp (set_effective_orientation, f) refl
  | inr f ↦ simp (set_effective_orientation, f, e) refl
]

same_again :
    (s : Screen) (o : Orientation)
    → is_same o auto ≡ false
    → set_effective_orientation (set_effective_orientation s o) o ≡ set_effective_orientation s o
same_again s o e =
    still_there (set_effective_orientation s o) o
      (subst (λ x. is_same x o ≡ true) (sym (effective_lem s o e)) (is_same_self o))

-- The direction decides the orientation: each of the four has its own variable and, without it, its
-- own orientation, and a variable that names no definite orientation changes nothing. A report that
-- the direction is unknown changes nothing, and so does a report that is made a second time.
pub on_change-effective :
    (env : Env) (s : Screen) (d : DeviceOrientation)
    → Turns env s portrait_up "ORIENT_PORTRAIT_UP" landscape_cw
      × Turns env s portrait_down "ORIENT_PORTRAIT_DOWN" landscape_ccw
      × Turns env s landscape_left "ORIENT_LANDSCAPE_LEFT" landscape_cw
      × Turns env s landscape_right "ORIENT_LANDSCAPE_RIGHT" landscape_ccw
      × (on_change env s unknown ≡ s)
      × (on_change env (on_change env s d) d ≡ on_change env s d)
unfolding on_change map_device_to_blit is_same
on_change-effective env s d = (
  turns env s portrait_up _ _ refl refl,
  turns env s portrait_down _ _ refl refl,
  turns env s landscape_left _ _ refl refl,
  turns env s landscape_right _ _ refl refl,
  refl,
  elim (Bool-cases (is_same (map_device_to_blit env d) auto)) [
    | inl e ↦ simp (on_change, e) refl
    | inr e ↦ simp (on_change, e) (same_again s (map_device_to_blit env d) e)
  ],
)
