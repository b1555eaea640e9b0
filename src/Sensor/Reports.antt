-- ===== src/Sensor/Reports.antt =====
-- When the sensor reports a direction, and which.
use rmcast.Base.{
  ◌<◌, ◌≤◌, ◌≡◌, ◌≢◌, ◌⊎◌, inl, inr, refl, sym, List, [], ◌∷◌, ◌++◌, true, false, arith, ◌∙◌, subst,
  Bool-cases,
}
use rmcast.Base.Int.{ℤ, pos, ◌<ℤ◌, ltb_ℤ-cases}
use rmcast.Sensor.{
  DeviceOrientation, portrait_up, portrait_down, landscape_left, landscape_right, unknown, Reading,
  abs, classify, is_held, Sensor, sense, run,
}

-- The axis with the readings `main` and `other` dominates: it is not below the third one and leans
-- by the threshold at least.
abbrev pub Leans : ℤ → ℤ → Type 0
Leans main third = (6000 ≤ abs main) × (abs third ≤ abs main)

-- The five outcomes of a classification, each with what it says of the readings.
pub classify_cases :
    (r : Reading)
    → ((classify r ≡ portrait_up) × Leans r.y r.z × (abs r.x < abs r.y) × (pos 0 <ℤ r.y))
      ⊎ ((classify r ≡ portrait_down) × Leans r.y r.z × (abs r.x < abs r.y) × (r.y <ℤ pos 0))
      ⊎ ((classify r ≡ landscape_left) × Leans r.x r.z × (abs r.y ≤ abs r.x) × (pos 0 <ℤ r.x))
      ⊎ ((classify r ≡ landscape_right) × Leans r.x r.z × (abs r.y ≤ abs r.x) × (r.x <ℤ pos 0))
      ⊎ ((classify r ≡ unknown)
          × (((abs r.x < abs r.z) × (abs r.y < abs r.z)) ⊎ ((abs r.x < 6000) × (abs r.y < 6000))))
unfolding classify abs
classify_cases r = ground (arith, ltb_ℤ-cases (pos 0) r.y, ltb_ℤ-cases (pos 0) r.x)

is_held-eq : (a b : DeviceOrientation) → is_held a b ≡ true → a ≡ b
unfolding is_held
is_held-eq portrait_up b e = ground arith
is_held-eq portrait_down b e = ground arith
is_held-eq landscape_left b e = ground arith
is_held-eq landscape_right b e = ground arith
is_held-eq unknown b e = ground arith

is_held_self : (a : DeviceOrientation) → is_held a a ≡ true
unfolding is_held
is_held_self portrait_up = refl
is_held_self portrait_down = refl
is_held_self landscape_left = refl
is_held_self landscape_right = refl
is_held_self unknown = refl

is_held-ne : (a b : DeviceOrientation) → is_held a b ≡ false → a ≢ b
is_held-ne a b e same = cc (e, subst (λ c. is_held a c ≡ true) same (is_held_self a))

-- Each report is a known direction and differs from the one before it, the first from `from`.
pub IsAlternating : DeviceOrientation → List DeviceOrientation → Type 0
IsAlternating from [] = Unit
IsAlternating from (d ∷ ds) = (d ≢ from) × (d ≢ unknown) × IsAlternating d ds

pub latest : DeviceOrientation → List DeviceOrientation → DeviceOrientation
latest from [] = from
latest from (d ∷ ds) = latest d ds

IsAlternating-more :
    (from : DeviceOrientation) (ds : List DeviceOrientation) (d : DeviceOrientation)
    → IsAlternating from ds
    → d ≢ latest from ds
    → d ≢ unknown
    → IsAlternating from (ds ++ d ∷ []) × (latest from (ds ++ d ∷ []) ≡ d)
unfolding IsAlternating latest
IsAlternating-more from [] d alt ne known = ((ne, known, tt), refl)
IsAlternating-more from (e ∷ ds) d (a, b, alt) ne known =
    let (more, last) = IsAlternating-more e ds d alt ne known in ((a, b, more), last)

-- The invariant of the sensor's thread.
abbrev IsReporting : Sensor → Type 0
IsReporting s = IsAlternating unknown s.reports × (s.last ≡ latest unknown s.reports)

sense-IsReporting : (s : Sensor) (r : Reading) → IsReporting s → IsReporting (sense s r)
unfolding sense
sense-IsReporting s r (alt, last) = elim (Bool-cases (is_held (classify r) unknown)) [
  | inl e ↦ rw e (alt, last)
  | inr e ↦ elim (Bool-cases (is_held (classify r) s.last)) [
    | inl f ↦ rw (e, f) (alt, is_held-eq (classify r) s.last f ∙ last)
    | inr f ↦
        let (more, now) =
          IsAlternating-more unknown s.reports (classify r) alt
            (λ same. is_held-ne (classify r) s.last f (same ∙ sym last))
            (is_held-ne (classify r) unknown e) in
        rw (e, f) (more, sym now)
  ]
]

run-IsReporting : (s : Sensor) (rs : List Reading) → IsReporting s → IsReporting (run s rs)
unfolding run
run-IsReporting s [] h = h
run-IsReporting s (r ∷ rs) h = run-IsReporting (sense s r) rs (sense-IsReporting s r h)

-- Whatever the axes read, a sensor that has just been started reports known directions only, never
-- the same one twice in a row, and what it holds as the last direction is its latest report, or
-- unknown if there is none.
pub run_reports :
    (rs : List Reading)
    → let s = run (record { last = unknown; reports = [] }) rs in
      IsAlternating unknown s.reports × (s.last ≡ latest unknown s.reports)
unfolding IsAlternating latest
run_reports rs = run-IsReporting (record { last = unknown; reports = [] }) rs (tt, refl)
