-- ===== src/Launcher/Session.antt =====
-- What the signals of a session say of its process.
use rmcast.Base.{
  ℕ, ◌≡◌, refl, ◌∙◌, inl, inr, List, [], ◌∷◌, none, some, Bool, true, false, Bool-cases,
  Option-cases, ◌||◌, ◌==◌,
}
use rmcast.Base.Int.{ℤ, pos, negsuc}
use rmcast.Settings.{Config}
use rmcast.Launcher.{
  Launcher, Qt, qtfb_server_changed, session_ended, Starting, Stopping, initial, emit,
  register_overlay_loader, open_overlay, close_overlay, set_status, is_ready, give_up, bring_up,
  ensure_server_started, waveform_of, spawn_of, spawn, start_session, on_finished, stop_session,
  on_client_connected, on_client_disconnected, on_frame_ready, get_or,
}
use rmcast.Launcher.Quiet.{
  noted, noted_from, noted_from-append, says_started, runs, IsHonest, Quiet, Quiet-refl,
  Quiet-trans, Quiet-IsHonest, IsMinor, emit-Quiet, set_status-Quiet, open_overlay-Quiet,
  close_overlay-Quiet, give_up-Quiet, set_waveform-Quiet, server-Quiet, ended-IsHonest,
  started-IsHonest,
}

-- What can happen to a launcher; a process reports its end only while there is one.
pub data Event : Type 0 where
  registers : Bool → Event
  opens closes : Event
  starts : Starting → Config → Event
  finishes : ℤ → Event
  stops : Stopping → Event
  connects disconnects : Event
  shows : ℕ → Event

module _ (qt : Qt) where
  bring_up-Quiet : (a : Starting) (g : Bool) (l : Launcher) → Quiet l (bring_up qt a g l).0
  unfolding bring_up IsMinor noted
  bring_up-Quiet a g l = elim (Bool-cases a.server_starts) [
    | inl e ↦
        rw (bring_up, e)
          (Quiet-trans (server-Quiet _ (set_status-Quiet _ l))
            (emit-Quiet qtfb_server_changed _ (λ b. refl)))
    | inr e ↦
        rw (bring_up, e)
          (Quiet-trans
            (server-Quiet none (Quiet-trans (set_status-Quiet _ l) (set_status-Quiet _ _)))
            (emit-Quiet qtfb_server_changed _ (λ b. refl)))
  ]

  pub ensure_server_started-Quiet :
      (a : Starting) (g : Bool) (l : Launcher) → Quiet l (ensure_server_started qt a g l).0
  unfolding ensure_server_started
  ensure_server_started-Quiet a g l = elim (Bool-cases (is_ready g l)) [
    | inl e ↦ rw (ensure_server_started, e) (Quiet-refl l)
    | inr e ↦
        rw (ensure_server_started, e)
          (Quiet-trans (give_up-Quiet l) (bring_up-Quiet a g (give_up l)))
  ]

  spawn-IsHonest :
      (a : Starting) (cfg : Config) (l : Launcher) → l.proc ≡ none → IsHonest (spawn qt a cfg l)
  unfolding spawn
  spawn-IsHonest a cfg l e =
      let w = set_waveform-Quiet (waveform_of cfg) l in
      elim (Bool-cases a.process_starts) [
        | inl f ↦ rw (spawn, f) (started-IsHonest (spawn_of qt cfg) _ (set_status-Quiet _ _).proc)
        | inr f ↦
            rw (spawn, f)
              (ended-IsHonest (negsuc 0) _
                ((set_status-Quiet _ _).proc ∙ (set_status-Quiet _ _).proc ∙ w.proc ∙ e))
      ]

  start_session-IsHonest :
      (a : Starting) (cfg : Config) (l : Launcher)
      → IsHonest l
      → IsHonest (start_session qt a cfg l)
  unfolding start_session
  start_session-IsHonest a cfg l h = elim (Option-cases l.proc) [
    | inr (s, e) ↦ simp (start_session, e) h
    | inl e ↦
        let grayscale = get_or cfg.grayscale true in
        let t = set_status "Starting framebuffer server…" l in
        let (u, up) = ensure_server_started qt a grayscale t in
        let free =
          (ensure_server_started-Quiet a grayscale t).proc ∙ (set_status-Quiet _ l).proc ∙ e in
        elim (Bool-cases up) [
          | inl f ↦ simp (start_session, e, f) (spawn-IsHonest a cfg u free)
          | inr f ↦ simp (start_session, e, f) (ended-IsHonest (negsuc 0) u free)
        ]
  ]

  on_finished-IsHonest : (code : ℤ) (l : Launcher) → IsHonest (on_finished qt code l)
  unfolding on_finished emit IsHonest says_started runs noted
  on_finished-IsHonest code l = noted_from-append false _ (session_ended code)

  stop_session-IsHonest :
      (a : Stopping) (l : Launcher) → IsHonest l → IsHonest (stop_session qt a l)
  unfolding stop_session
  stop_session-IsHonest a l h = elim (Option-cases l.proc) [
    | inl e ↦
        simp (stop_session, e)
          (ended-IsHonest (pos 0) _ ((set_status-Quiet "Disconnected" l).proc ∙ e))
    | inr (s, e) ↦
        let t = set_status "Stopping vnsee…" l in
        let over =
          λ (u : Launcher) (v : IsHonest u). Quiet-IsHonest (set_status-Quiet "Disconnected" u) v in
        elim (Option-cases a.terminated) [
          | inr (code, f) ↦ simp (stop_session, e, f) (over _ (on_finished-IsHonest code t))
          | inl f ↦ elim (Option-cases a.killed) [
            | inr (code, g) ↦ simp (stop_session, e, f, g) (over _ (on_finished-IsHonest code t))
            | inl g ↦
                simp (stop_session, e, f, g)
                  (over t (Quiet-IsHonest (set_status-Quiet "Stopping vnsee…" l) h))
          ]
        ]
  ]

  unfoldable pub happen : Event → Launcher → Launcher
  happen (registers active) l = register_overlay_loader active l
  happen opens l = open_overlay l
  happen closes l = close_overlay l
  happen (starts a cfg) l = start_session qt a cfg l
  happen (finishes code) l = elim l.proc [ none ↦ l | some _ ↦ on_finished qt code l ]
  happen (stops a) l = stop_session qt a l
  happen connects l = on_client_connected l
  happen disconnects l = on_client_disconnected l
  happen (shows seq) l = on_frame_ready seq l

  unfoldable pub happen_all : List Event → Launcher → Launcher
  happen_all [] l = l
  happen_all (x ∷ xs) l = happen_all xs (happen x l)

  happen-IsHonest : (x : Event) (l : Launcher) → IsHonest l → IsHonest (happen x l)
  unfolding happen register_overlay_loader on_client_connected on_client_disconnected on_frame_ready
      IsHonest runs
  happen-IsHonest (registers active) l h = h
  happen-IsHonest opens l h = Quiet-IsHonest (open_overlay-Quiet l) h
  happen-IsHonest closes l h = Quiet-IsHonest (close_overlay-Quiet l) h
  happen-IsHonest (starts a cfg) l h = start_session-IsHonest a cfg l h
  happen-IsHonest (finishes code) l h = elim (Option-cases l.proc) [
    | inl e ↦ simp (happen, e) h
    | inr (s, e) ↦ simp (happen, e) (on_finished-IsHonest code l)
  ]
  happen-IsHonest (stops a) l h = stop_session-IsHonest a l h
  happen-IsHonest connects l h = Quiet-IsHonest (set_status-Quiet _ l) h
  happen-IsHonest disconnects l h = Quiet-IsHonest (set_status-Quiet _ l) h
  happen-IsHonest (shows seq) l h = elim (Bool-cases ((seq == 0) || (seq == 1))) [
    | inl e ↦ simp (on_frame_ready, e) (Quiet-IsHonest (set_status-Quiet _ l) h)
    | inr e ↦ simp (on_frame_ready, e) h
  ]

  happen_all-IsHonest : (xs : List Event) (l : Launcher) → IsHonest l → IsHonest (happen_all xs l)
  unfolding happen_all
  happen_all-IsHonest [] l h = h
  happen_all-IsHonest (x ∷ xs) l h = happen_all-IsHonest xs (happen x l) (happen-IsHonest x l h)

  -- After any sequence of events, the last signal about the session says that it has started exactly
  -- if its process runs; a launcher that has never started one has not said so.
  pub happen_all-says :
      (xs : List Event)
      → says_started (happen_all xs initial).signals ≡ runs (happen_all xs initial)
  unfolding initial IsHonest says_started runs noted_from
  happen_all-says xs = happen_all-IsHonest xs initial refl
