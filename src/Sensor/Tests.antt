-- ===== src/Sensor/Tests.antt =====
-- The theorems on the sensor applied to a few readings.
use rmcast.Base.{◌≡◌, [], ◌∷◌, none, true}
use rmcast.Base.Int.{pos, negsuc}
use rmcast.Sensor.{
  portrait_up, portrait_down, landscape_left, landscape_right, unknown, Reading, run, on_change,
}
use rmcast.Orientation.{auto, landscape_cw, landscape_ccw}
use rmcast.Screen.{Screen, Device}
use rmcast.Screen.Setup.{Env, create}
use rmcast.Sensor.Turns.{Turns, on_change-effective}
use rmcast.Sensor.Reports.{IsAlternating, latest, run_reports}

abbrev upright : Reading
upright = record { x = pos 300; y = pos 9800; z = negsuc 900 }

abbrev on_its_side : Reading
on_its_side = record { x = negsuc 9700; y = pos 120; z = pos 800 }

run_reports_example :
    let s = run (record { last = unknown; reports = [] }) (upright ∷ upright ∷ on_its_side ∷ []) in
    IsAlternating unknown s.reports × (s.last ≡ latest unknown s.reports)
run_reports_example = run_reports (upright ∷ upright ∷ on_its_side ∷ [])

abbrev panel : Device
panel = record { xres = pos 1; yres = pos 2; pixels = 0 ∷ 0 ∷ []; updates = [] }

abbrev unset : Env
unset name = none

abbrev turned_on : Screen
turned_on = create panel true auto unset

on_change-effective_example :
    Turns unset turned_on portrait_up "ORIENT_PORTRAIT_UP" landscape_cw
    × Turns unset turned_on portrait_down "ORIENT_PORTRAIT_DOWN" landscape_ccw
    × Turns unset turned_on landscape_left "ORIENT_LANDSCAPE_LEFT" landscape_cw
    × Turns unset turned_on landscape_right "ORIENT_LANDSCAPE_RIGHT" landscape_ccw
    × (on_change unset turned_on unknown ≡ turned_on)
    × (on_change unset (on_change unset turned_on landscape_left) landscape_left
        ≡ on_change unset turned_on landscape_left)
on_change-effective_example = on_change-effective unset turned_on landscape_left
