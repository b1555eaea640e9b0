-- ===== src/Screen/Repaint/Correct.antt =====
-- What a repaint leaves on the panel, and when the event loop makes one.
use rmcast.Base.{
  ℕ, ◌+◌, ◌*◌, ◌<◌, ◌≤◌, ◌≡◌, ◌⊎◌, inl, inr, refl, List, [], ◌∷◌, ◌++◌, Bool, some, true, false,
  arith, ap, subst, sym, Bool-cases, ◌==◌, ==_iff, ◌≢◌,
}
use rmcast.Base.Int.{pos, negsuc}
use rmcast.Screen.{Rect, Screen, standard, fast, device_update}
use rmcast.Screen.Blit.{is_empty}
use rmcast.Screen.Blit.Shows.{Shows}
use rmcast.Screen.Blit.Region.{IsSized, Visible, Covers}
use rmcast.Screen.Blit.Correct.{blit_rotated-Blits}
use rmcast.Screen.Repaint.{
  waveform_mode, Status, by_mode, start_repaint, refresh, repaint, wait_time, event_loop,
}

-- The screen `s` after a repaint at the time `now` that left the pixels `dst` on the panel and
-- painted inside the rectangle `q`.
abbrev pub redrawn : ℕ → Screen → List ℕ → Rect → Screen
redrawn now s dst q =
    refresh
      (record (start_repaint now s) {
        device = record ((start_repaint now s).device) { pixels = dst };
      })
      q

pub redrawn_pixels :
    (now : ℕ) (s : Screen) (dst : List ℕ) (q : Rect) → (redrawn now s dst q).device.pixels ≡ dst
unfolding refresh start_repaint device_update
redrawn_pixels now s dst q = elim (Bool-cases (is_empty q)) [ inl e ↦ rw e | inr e ↦ rw e ]

restart-IsSized : (now : ℕ) (s : Screen) → IsSized s → IsSized (start_repaint now s)
unfolding start_repaint
restart-IsSized now s sized = record { source = sized.source; panel = sized.panel }

restart-Shows :
    (now : ℕ) (s : Screen) (r : Rect) (before dst : List ℕ)
    → Shows (start_repaint now s) (Visible (start_repaint now s) r) before dst
    → Shows s (Visible s r) before dst
unfolding start_repaint
restart-Shows now s r before dst h = record {
  same_length = h.same_length;
  shown = h.shown;
  kept = h.kept;
}

restart-Covers :
    (now : ℕ) (s : Screen) (r q : Rect)
    → Covers (start_repaint now s) (Visible (start_repaint now s) r) q
    → Covers s (Visible s r) q
unfolding start_repaint
restart-Covers now s r q h = h

restart_pixels : (now : ℕ) (s : Screen) → (start_repaint now s).device.pixels ≡ s.device.pixels
unfolding start_repaint
restart_pixels now s = refl

-- Where the buffers have the sizes of their images, a repaint does not fault. It notes the time,
-- clears the pending flag in the standard mode only, shows on the panel every source pixel of the
-- pending rectangle at its place and nothing else anew, and asks the device for one update of a
-- rectangle that holds every painted cell, or for none if that rectangle is empty.
pub repaint-redrawn :
    (now : ℕ) (s : Screen)
    → IsSized s
    → (dst : List ℕ) × (q : Rect) × (repaint now s ≡ some (redrawn now s dst q))
      × Shows s (Visible s s.update_info.rect) s.device.pixels dst
      × Covers s (Visible s s.update_info.rect) q
unfolding repaint
repaint-redrawn now s sized =
    let r = s.update_info.rect in
    let (t, q, run, done) =
      blit_rotated-Blits (start_repaint now s) r (restart-IsSized now s sized) in
    (
      t.device.pixels,
      q,
      rw (run, repaint) (ap (λ (u : Screen). some (refresh u q)) done.rest),
      restart-Shows now s r s.device.pixels t.device.pixels (
          subst
            (λ (before : List ℕ).
              Shows (start_repaint now s) (Visible (start_repaint now s) r) before t.device.pixels)
            (restart_pixels now s) done.shows),
      restart-Covers now s r q done.covers,
    )

event_loop_quiet :
    (now later : ℕ) (s : Screen)
    → s.update_info.has_update ≡ false
    → event_loop now later s ≡ some (s, record { quit = false; timeout = negsuc 0 })
unfolding event_loop
event_loop_quiet now later s e = ground arith

event_loop_early :
    (now later : ℕ) (s : Screen)
    → s.update_info.has_update ≡ true
    → (wait_time now s == 0) ≡ false
    → event_loop now later s ≡ some (s, record { quit = false; timeout = pos (wait_time now s) })
unfolding event_loop
event_loop_early now later s e h = ground arith

event_loop_due :
    (now later : ℕ) (s t : Screen)
    → s.update_info.has_update ≡ true
    → (wait_time now s == 0) ≡ true
    → repaint later s ≡ some t
    → event_loop now later s ≡ some (t, record { quit = false; timeout = negsuc 0 })
unfolding event_loop
event_loop_due now later s t e h run = ground arith

-- Where the buffers have the sizes of their images, the event loop repaints exactly when an
-- update is pending and less than a millisecond of the delay of the current mode is left. Before
-- that it changes nothing and asks to be called again after a time that is above 0 and at most
-- what is left; with nothing pending it waits for events. It never quits and never faults.
pub event_loop_cases :
    (now later : ℕ) (s : Screen)
    → IsSized s
    → let delay = by_mode s.repaint_mode s.standard_repaint_delay s.fast_repaint_delay in
      ((s.update_info.has_update ≡ false)
        × (event_loop now later s ≡ some (s, record { quit = false; timeout = negsuc 0 })))
      ⊎ ((s.update_info.has_update ≡ true)
          × (s.last_repaint + delay * 1_000_000 < now + 1_000_000)
          × ((t : Screen) × (repaint later s ≡ some t)
              × (event_loop now later s ≡ some (t, record { quit = false; timeout = negsuc 0 }))))
      ⊎ ((s.update_info.has_update ≡ true)
          × (now + 1_000_000 ≤ s.last_repaint + delay * 1_000_000)
          × ((wait : ℕ) × (0 < wait)
              × (now + wait * 1_000_000 ≤ s.last_repaint + delay * 1_000_000)
              × (event_loop now later s ≡ some (s, record { quit = false; timeout = pos wait }))))
unfolding wait_time
event_loop_cases now later s sized = elim (Bool-cases s.update_info.has_update) [
  | inl due ↦ elim (Bool-cases (wait_time now s == 0)) [
    | inl over ↦
        let (dst, q, run, shows, covers) = repaint-redrawn later s sized in
        inr (
          inl (
            due,
            omega (arith, (==_iff (wait_time now s) 0).0 over),
            (redrawn later s dst q, run, event_loop_due now later s _ due over run),
          ))
    | inr early ↦
        let waits : wait_time now s ≢ 0 = λ e. cc (early, (==_iff (wait_time now s) 0).1 e) in
        inr (
          inr (
            due,
            omega (arith, waits),
            (
              wait_time now s,
              omega (arith, waits),
              omega arith,
              event_loop_early now later s due early,
            ),
          ))
  ]
  | inr quiet ↦ inl (quiet, event_loop_quiet now later s quiet)
]

-- The event loop does not fault and does not quit.
pub event_loop_total :
    (now later : ℕ) (s : Screen)
    → IsSized s
    → (t : Screen) × (st : Status) × (event_loop now later s ≡ some (t, st)) × (st.quit ≡ false)
event_loop_total now later s sized = elim (event_loop_cases now later s sized) [
  | inl (e, run) ↦ (s, record { quit = false; timeout = negsuc 0 }, run, refl)
  | inr (inl (e, due, (t, shown, run))) ↦
      (t, record { quit = false; timeout = negsuc 0 }, run, refl)
  | inr (inr (e, early, (wait, some_time, within, run))) ↦
      (s, record { quit = false; timeout = pos wait }, run, refl)
]

-- What a repaint leaves besides the pixels, when it has painted inside of `q`.
pub record Notes (now : ℕ) (s t : Screen) (q : Rect) : Type 0 where
  pub time : t.last_repaint ≡ now
  pub settled : s.repaint_mode ≡ standard → t.update_info.has_update ≡ false
  pub pending : s.repaint_mode ≡ fast → t.update_info.has_update ≡ s.update_info.has_update
  pub rect : t.update_info.rect ≡ s.update_info.rect
  pub mode : t.repaint_mode ≡ s.repaint_mode
  pub nothing : is_empty q ≡ true → t.device.updates ≡ s.device.updates
  pub precise :
      is_empty q ≡ false
      → s.repaint_mode ≡ standard
      → t.device.updates
        ≡ s.device.updates ++ record { rect = q; mode = s.standard_waveform_mode } ∷ []
  pub quick :
      is_empty q ≡ false
      → s.repaint_mode ≡ fast
      → t.device.updates ≡ s.device.updates ++ record { rect = q; mode = s.fast_waveform_mode } ∷ []

differ : {b : Bool} → b ≡ true → b ≡ false → ⊥
differ e f = cc

redrawn-Notes :
    (now : ℕ) (s : Screen) (dst : List ℕ) (q : Rect) → Notes now s (redrawn now s dst q) q
unfolding refresh start_repaint device_update waveform_mode by_mode
redrawn-Notes now s dst q = elim (Bool-cases (is_empty q)) [
  | inl e ↦ rw e (record {
    time = refl;
    settled = λ m. rw m refl;
    pending = λ m. rw m refl;
    rect = refl;
    mode = refl;
    nothing = λ f. refl;
    precise = λ f. absurd (differ e f);
    quick = λ f. absurd (differ e f);
  })
  | inr e ↦ rw e (record {
    time = refl;
    settled = λ m. rw m refl;
    pending = λ m. rw m refl;
    rect = refl;
    mode = refl;
    nothing = λ f. absurd (differ f e);
    precise = λ f m. rw m refl;
    quick = λ f m. rw m refl;
  })
]

-- Where the buffers have the sizes of their images, a repaint does not fault. It shows on the panel
-- every source pixel of the pending rectangle at its place and nothing else anew. It notes the time;
-- the pending flag is cleared in the standard mode and kept in the fast one. If the painted rectangle
-- is empty the device is asked for nothing; else it is asked for one update, of a rectangle that
-- holds every painted cell, with the standard waveform in the standard mode and the fast one in the
-- fast mode.
pub repaint-Shows :
    (now : ℕ) (s : Screen)
    → IsSized s
    → (t : Screen) × (q : Rect) × (repaint now s ≡ some t)
      × Shows s (Visible s s.update_info.rect) s.device.pixels t.device.pixels
      × Covers s (Visible s s.update_info.rect) q
      × Notes now s t q
repaint-Shows now s sized =
    let (dst, q, run, shows, covers) = repaint-redrawn now s sized in
    let pixels = redrawn_pixels now s dst q in
    (
      redrawn now s dst q,
      q,
      run,
      subst (Shows s (Visible s s.update_info.rect) s.device.pixels) (sym pixels) shows,
      covers,
      redrawn-Notes now s dst q,
    )
