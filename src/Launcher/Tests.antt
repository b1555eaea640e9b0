-- ===== src/Launcher/Tests.antt =====
-- The theorems about the launcher at small concrete values.
use rmcast.Base.{◌≡◌, refl, List, [], ◌∷◌, ◌++◌, none, some, true, false}
use rmcast.Base.Int.{pos, negsuc}
use rmcast.Settings.{Settings, Config, default_settings, as_map}
use rmcast.Launcher.{
  Qt, Starting, Stopping, Spawn, SessionSignal, session_ended, start_session, initial,
}
use rmcast.Launcher.Quiet.{says_started, runs}
use rmcast.Launcher.Session.{starts, stops, opens, happen_all, happen_all-says}
use rmcast.Launcher.Started.{Gets, Serves, start_session_cases}

abbrev bare : Qt
bare = record { arg = λ template args. template; text_of = λ n. "1" }

abbrev prompt : Starting
prompt = record {
  server_starts = true;
  fb_width = pos 1620;
  fb_height = pos 2160;
  process_starts = true;
  pid = pos 77;
  error = "";
}

abbrev patient : Stopping
patient = record { terminated = none; killed = some (negsuc 8) }

abbrev fast_settings : Settings
fast_settings = record default_settings { low_latency = true }

abbrev stored : Config
stored = as_map fast_settings

happen_all-says_example :
    says_started
      (happen_all bare (opens ∷ starts prompt stored ∷ stops patient ∷ []) initial).signals
    ≡ runs (happen_all bare (opens ∷ starts prompt stored ∷ stops patient ∷ []) initial)
happen_all-says_example = happen_all-says bare (opens ∷ starts prompt stored ∷ stops patient ∷ [])

start_session_cases_example :
    let t = start_session bare prompt (as_map fast_settings) initial in
    ((p : Spawn) → initial.proc ≡ some p → t ≡ initial)
    × (initial.proc ≡ none
        → true ≡ true
        → (p : Spawn) × (t.proc ≡ some p) × Gets bare fast_settings p × Serves fast_settings t)
    × (initial.proc ≡ none
        → true ≡ false
        → (t.proc ≡ none)
          × (xs : List SessionSignal) × (t.signals ≡ xs ++ session_ended (negsuc 0) ∷ []))
start_session_cases_example = start_session_cases bare prompt fast_settings initial refl
