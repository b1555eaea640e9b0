-- ===== src/Server/Throttle.antt =====
-- The frame cap of `onSocketReadyRead`: which frame messages lead to a repaint.
use rmcast.Base.{ℕ, ◌+◌, ◌<◌, ◌≤◌, ◌≡◌, ◌⊎◌, List, [], ◌∷◌, false, if◌then◌else◌}
use rmcast.Server.{Server, is_small_rect}
use rmcast.Server.Shown.{Arrival, step, signals_frame}

-- The times at which the server has emitted a repaint signal.
pub shown_times : Server → List Arrival → List ℕ
shown_times s [] = []
shown_times s (a ∷ arrivals) =
    let rest = shown_times (step s a) arrivals in if signals_frame s a then a.now ∷ rest else rest

-- No message is for a small rectangle, and the clock has left 0.
unfoldable pub IsLarge : List Arrival → Type 0
IsLarge [] = Unit
IsLarge (a ∷ arrivals) = (is_small_rect a.w a.h ≡ false) × (0 < a.now) × IsLarge arrivals

-- Each time is at least `period` after the one before it, the first after `last`.
pub IsAfter : ℕ → ℕ → List ℕ → Type 0
IsAfter period last [] = Unit
IsAfter period last (t ∷ ts) = (last + period ≤ t) × IsAfter period t ts

-- The same, where a `last` of 0 stands for no time at all.
pub IsSpaced : ℕ → ℕ → List ℕ → Type 0
unfolding IsAfter
IsSpaced period last [] = Unit
IsSpaced period last (t ∷ ts) = ((last ≡ 0) ⊎ (last + period ≤ t)) × IsAfter period t ts
