-- ===== src/Screen/Repaint.antt =====
-- `repaint`, `set_repaint_mode` and `event_loop` of src/app/screen.cpp, and `event_loop_status` of
-- src/app/event_loop.hpp. A reading of the clock is an argument, in nanoseconds.
pub mod Correct
use rmcast.Base.{ℕ, ◌+◌, ◌-◌, ◌*◌, ◌/◌, Option, none, some, Bool, true, false, if◌then◌else◌, ◌==◌}
use rmcast.Base.Int.{ℤ, pos, negsuc}
use rmcast.Screen.{Rect, Screen, RepaintMode, standard, fast, device_update}
use rmcast.Screen.Blit.{blit_rotated, is_empty}

pub record Status : Type 0 where
  pub quit : Bool
  pub timeout : ℤ

-- `repaint_mode == standard ? a : b`
unfoldable pub by_mode {ℓ} : {A : Type ℓ} → RepaintMode → A → A → A
by_mode standard a b = a
by_mode fast a b = b

unfoldable pub set_repaint_mode : Screen → RepaintMode → Screen
set_repaint_mode s mode = record s { repaint_mode = mode }

-- What `repaint` sets before it blits.
unfoldable pub start_repaint : ℕ → Screen → Screen
unfolding by_mode
start_repaint now s = record s {
  update_info = record (s.update_info) {
    has_update = by_mode s.repaint_mode false s.update_info.has_update;
  };
  last_repaint = now;
}

pub waveform_mode : Screen → ℕ
unfolding by_mode
waveform_mode s = by_mode s.repaint_mode s.standard_waveform_mode s.fast_waveform_mode

-- The call of `device.update`, unless nothing was painted.
unfoldable pub refresh : Screen → Rect → Screen
unfolding waveform_mode
refresh s q =
    if is_empty q then s else record s { device = device_update s.device q (waveform_mode s) }

pub repaint : ℕ → Screen → Option Screen
unfolding start_repaint refresh
repaint now s = elim (blit_rotated (start_repaint now s) s.update_info.rect) [
  | none ↦ none
  | some (t, q) ↦ some (refresh t q)
]

abbrev ns_per_ms : ℕ
ns_per_ms = 1_000_000

-- `duration_cast<milliseconds>(next_update_time - now)`, which rounds towards 0; a time that is
-- past is 0 here and not above 0 in the code.
pub wait_time : ℕ → Screen → ℕ
unfolding by_mode
wait_time now s =
    (s.last_repaint
      + by_mode s.repaint_mode s.standard_repaint_delay s.fast_repaint_delay * ns_per_ms
      - now)
    / ns_per_ms

abbrev idle_status : Status
idle_status = record { quit = false; timeout = negsuc 0 }

-- `later` is the reading of the clock in `repaint`.
pub event_loop : ℕ → ℕ → Screen → Option (Screen × Status)
event_loop now later s =
    if s.update_info.has_update
    then if wait_time now s == 0
      then elim (repaint later s) [ none ↦ none | some t ↦ some (t, idle_status) ]
      else some (s, record { quit = false; timeout = pos (wait_time now s) })
    else some (s, idle_status)
