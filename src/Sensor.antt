-- ===== src/Sensor.antt =====
-- src/orientation_sensor.cpp: which way the device is held, and what the sensor's thread reports.
-- The readings of the three axes are arguments.
pub mod Reports
pub mod Turns
mod Tests
use Prim.Native.String.{String}
use rmcast.Base.{
  ℕ, ◌+◌, List, [], ◌∷◌, ◌++◌, Option, none, some, Bool, true, false, not, ◌&&◌, if◌then◌else◌, ltb,
}
use rmcast.Base.Int.{ℤ, pos, pos_part, neg_part, ltb_ℤ}
use rmcast.Orientation.{
  Orientation, landscape_cw, landscape_ccw, auto, is_same, orientation_from_string,
}
use rmcast.Screen.{Screen}
use rmcast.Screen.Setup.{Env, set_effective_orientation}

pub data DeviceOrientation : Type 0 where
  portrait_up portrait_down landscape_left landscape_right unknown : DeviceOrientation

pub record Reading : Type 0 where
  pub x : ℤ
  pub y : ℤ
  pub z : ℤ

-- `std::abs`
pub abs : ℤ → ℕ
abs a = pos_part a + neg_part a

abbrev dominance_threshold : ℕ
dominance_threshold = 6000

pub classify : Reading → DeviceOrientation
unfolding abs
classify r =
    if ltb (abs r.x) (abs r.z) && ltb (abs r.y) (abs r.z)
    then unknown
    else if ltb (abs r.x) (abs r.y)
    then if ltb (abs r.y) dominance_threshold
      then unknown
      else if ltb_ℤ (pos 0) r.y
      then portrait_up
      else portrait_down
    else if ltb (abs r.x) dominance_threshold
    then unknown
    else if ltb_ℤ (pos 0) r.x
    then landscape_left
    else landscape_right

pub parse_env : Env → String → Orientation → Orientation
parse_env env var fallback = elim (env var) [ none ↦ fallback | some v ↦ orientation_from_string v ]

pub map_device_to_blit : Env → DeviceOrientation → Orientation
unfolding parse_env
map_device_to_blit env portrait_up = parse_env env "ORIENT_PORTRAIT_UP" landscape_cw
map_device_to_blit env portrait_down = parse_env env "ORIENT_PORTRAIT_DOWN" landscape_ccw
map_device_to_blit env landscape_left = parse_env env "ORIENT_LANDSCAPE_LEFT" landscape_cw
map_device_to_blit env landscape_right = parse_env env "ORIENT_LANDSCAPE_RIGHT" landscape_ccw
map_device_to_blit env unknown = auto

pub is_held : DeviceOrientation → DeviceOrientation → Bool
is_held portrait_up portrait_up = true
is_held portrait_down portrait_down = true
is_held landscape_left landscape_left = true
is_held landscape_right landscape_right = true
is_held unknown unknown = true
is_held _ _ = false

-- `last_`, and the calls of `on_change_`, the oldest first.
pub record Sensor : Type 0 where
  pub last : DeviceOrientation
  pub reports : List DeviceOrientation

-- One round of the loop of `run`.
pub sense : Sensor → Reading → Sensor
unfolding classify is_held
sense s r =
    let now = classify r in
    if is_held now unknown
    then s
    else if is_held now s.last
    then record s { last = now }
    else record { last = now; reports = s.reports ++ now ∷ [] }

pub run : Sensor → List Reading → Sensor
unfolding sense
run s [] = s
run s (r ∷ rs) = run (sense s r) rs

-- The callback that the client gives to the sensor.
pub on_change : Env → Screen → DeviceOrientation → Screen
unfolding map_device_to_blit
on_change env s d =
    let o = map_device_to_blit env d in if is_same o auto then s else set_effective_orientation s o
