-- ===== src/Launcher/Started.antt =====
-- What a session is started with.
use rmcast.Base.{
  ◌≡◌, refl, ◌∙◌, inl, inr, List, [], ◌∷◌, ◌++◌, Option, none, some, Bool, true, false,
  if◌then◌else◌, Bool-cases, Option-cases,
}
use Prim.Native.String.{String}
use text.Mathlib.Text.{◌==◌ as same_text}
use rmcast.Base.Int.{pos, negsuc, eq_ℤ, eq_ℤ_self, ◌-ℤ◌}
use rmcast.Settings.{Settings, as_map, same_bool}
use rmcast.Launcher.{
  host_alone, host_display, flag_text, spawn_of, get_or, Launcher, Qt, SessionSignal, session_ended,
  CastServer, Starting, Spawn, emit, set_status, is_ready, give_up, bring_up, ensure_server_started,
  waveform_of, set_waveform, spawn, start_session,
}
use rmcast.Launcher.Quiet.{set_status-Quiet, set_waveform-Quiet}
use rmcast.Launcher.Session.{ensure_server_started-Quiet}
use rmcast.Settings.Stored.{bool_same}

-- The server that a session with these settings needs.
pub record Serves (s : Settings) (l : Launcher) : Type 0 where
  pub server : CastServer
  pub here : l.server ≡ some server
  pub mapped : server.has_shm ≡ true
  pub format : server.grayscale_shm ≡ s.grayscale
  pub low_latency : s.low_latency ≡ true → server.waveform ≡ "DU"
  pub waveform : s.low_latency ≡ false → server.waveform ≡ s.waveform

-- The value of a variable in what is added to the environment.
pub lookup : String → List (String × String) → Option String
lookup k [] = none
lookup k ((j, v) ∷ rest) = if same_text j k then some v else lookup k rest

differ : {b : Bool} → b ≡ true → b ≡ false → ⊥
differ e f = cc

set_status-server : (s : String) (l : Launcher) → (set_status s l).server ≡ l.server
unfolding set_status emit
set_status-server s l = elim (Bool-cases (same_text l.status s)) [
  | inl e ↦ rw (set_status, e) refl
  | inr e ↦ rw (set_status, e) refl
]

set_waveform_server :
    (w : String) (l : Launcher) (s : CastServer)
    → l.server ≡ some s
    → (set_waveform w l).server ≡ some (record s { waveform = w })
unfolding set_waveform
set_waveform_server w l s e = simp (set_waveform, e) refl

module _ (qt : Qt) where
  bring_up-server :
      (a : Starting) (g : Bool) (l : Launcher)
      → a.server_starts ≡ true
      → ((bring_up qt a g l).1 ≡ true)
        × (s : CastServer) × ((bring_up qt a g l).0.server ≡ some s)
        × (s.has_shm ≡ true)
        × (s.grayscale_shm ≡ g)
  unfolding bring_up emit
  bring_up-server a g l e = rw (bring_up, e) (refl, _, refl, refl, refl)

  ensure_server_started-up :
      (a : Starting) (g : Bool) (l : Launcher)
      → a.server_starts ≡ true
      → let r = ensure_server_started qt a g l in
        (r.1 ≡ true)
        × (s : CastServer) × (r.0.server ≡ some s)
        × (s.has_shm ≡ true)
        × (s.grayscale_shm ≡ g)
  unfolding ensure_server_started is_ready
  ensure_server_started-up a g l starts = elim (Option-cases l.server) [
    | inl e ↦ simp (ensure_server_started, is_ready, e) (bring_up-server a g (give_up l) starts)
    | inr (s, e) ↦ elim (Bool-cases s.has_shm) [
      | inr f ↦
          simp (ensure_server_started, is_ready, e, f) (bring_up-server a g (give_up l) starts)
      | inl f ↦ elim (Bool-cases (same_bool s.grayscale_shm g)) [
        | inr h ↦
            simp (ensure_server_started, is_ready, e, f, h) (bring_up-server a g (give_up l) starts)
        | inl h ↦
            simp (ensure_server_started, is_ready, e, f, h)
              (refl, s, refl, f, bool_same s.grayscale_shm g h)
      ]
    ]
  ]

  -- What a process gets of the stored settings.
  pub record Gets (s : Settings) (p : Spawn) : Type 0 where
    pub host : s.port ≡ pos 5900 → p.operand ≡ host_alone s.host
    pub display :
        eq_ℤ s.port (pos 5900) ≡ false → p.operand ≡ host_display s.host (s.port -ℤ pos 5900)
    pub socket : lookup "VNCAST_QTFB_SOCKET" p.environment ≡ some "/run/vncast.sock"
    pub fps : lookup "VNCAST_FPS" p.environment ≡ some (qt.text_of s.fps)
    pub no_encoding :
        same_text s.encoding "COPYRECT" ≡ true → lookup "VNSEE_ENCODING" p.environment ≡ none
    pub encoding :
        same_text s.encoding "COPYRECT" ≡ false
        → lookup "VNSEE_ENCODING" p.environment ≡ some s.encoding
    pub low_latency : s.low_latency ≡ true → lookup "VNCAST_WAVEFORM" p.environment ≡ some "DU"
    pub waveform : s.low_latency ≡ false → lookup "VNCAST_WAVEFORM" p.environment ≡ some s.waveform
    pub orientation : lookup "VNCAST_ORIENTATION" p.environment ≡ some s.orientation
    pub gray : s.grayscale ≡ true → lookup "VNCAST_FORCE_GRAYSCALE" p.environment ≡ some "1"
    pub colour : s.grayscale ≡ false → lookup "VNCAST_FORCE_GRAYSCALE" p.environment ≡ some "0"
    pub mono : s.mono1 ≡ true → lookup "VNCAST_PREFER_MONO1" p.environment ≡ some "1"
    pub not_mono : s.mono1 ≡ false → lookup "VNCAST_PREFER_MONO1" p.environment ≡ some "0"
    pub level : lookup "VNCAST_COMPRESS_LEVEL" p.environment ≡ some (qt.text_of s.compress_level)

  spawn_of-Gets : (s : Settings) → Gets s (spawn_of qt (as_map s))
  unfolding spawn_of as_map get_or waveform_of flag_text lookup
  spawn_of-Gets s = elim (Bool-cases (same_text s.encoding "COPYRECT")) [
    | inl e ↦ rw e (record {
      host = λ f. rw (f, eq_ℤ_self) refl;
      display = λ f. rw f refl;
      socket = refl;
      fps = refl;
      no_encoding = λ f. refl;
      encoding = λ f. absurd (differ e f);
      low_latency = λ f. rw f refl;
      waveform = λ f. rw f refl;
      orientation = refl;
      gray = λ f. rw f refl;
      colour = λ f. rw f refl;
      mono = λ f. rw f refl;
      not_mono = λ f. rw f refl;
      level = refl;
    })
    | inr e ↦ rw e (record {
      host = λ f. rw (f, eq_ℤ_self) refl;
      display = λ f. rw f refl;
      socket = refl;
      fps = refl;
      no_encoding = λ f. absurd (differ f e);
      encoding = λ f. refl;
      low_latency = λ f. rw f refl;
      waveform = λ f. rw f refl;
      orientation = refl;
      gray = λ f. rw f refl;
      colour = λ f. rw f refl;
      mono = λ f. rw f refl;
      not_mono = λ f. rw f refl;
      level = refl;
    })
  ]

  -- With the stored settings, and as long as a server can be started: a session starts only if none
  -- runs. The process then gets each setting in its variable or operand, with low latency the
  -- waveform DU whatever was stored; the server has the memory, the format and the waveform of those
  -- settings. If the process does not start in time, there is none, and the end of the session with
  -- code -1 is what the launcher signals last. While a process runs, nothing at all happens.
  pub start_session_cases :
      (a : Starting) (s : Settings) (l : Launcher)
      → a.server_starts ≡ true
      → let t = start_session qt a (as_map s) l in
        ((p : Spawn) → l.proc ≡ some p → t ≡ l)
        × (l.proc ≡ none
            → a.process_starts ≡ true
            → (p : Spawn) × (t.proc ≡ some p) × Gets s p × Serves s t)
        × (l.proc ≡ none
            → a.process_starts ≡ false
            → (t.proc ≡ none)
              × (xs : List SessionSignal) × (t.signals ≡ xs ++ session_ended (negsuc 0) ∷ []))
  unfolding start_session spawn emit waveform_of get_or as_map
  start_session_cases a settings l starts =
      let cfg = as_map settings in
      let grayscale = settings.grayscale in
      let t = set_status "Starting framebuffer server…" l in
      let u = (ensure_server_started qt a grayscale t).0 in
      let (up, s, here, mapped, format) = ensure_server_started-up a grayscale t starts in
      let waved = set_waveform_server (waveform_of cfg) u s here in
      let free = λ (e : l.proc ≡ none).
        (ensure_server_started-Quiet qt a grayscale t).proc ∙ (set_status-Quiet _ l).proc ∙ e in
      (
        λ s e. simp (start_session, e) refl,
        λ e f.
            simp (start_session, e, up, spawn, f)
              (
                spawn_of qt cfg,
                (set_status-Quiet _ _).proc,
                spawn_of-Gets settings,
                record {
                  server = record s { waveform = waveform_of cfg };
                  here =
                      set_status-server _ _
                      ∙ set_status-server _ (set_waveform (waveform_of cfg) u)
                      ∙ waved;
                  mapped = mapped;
                  format = format;
                  low_latency = λ f. rw f refl;
                  waveform = λ f. rw f refl;
                },
              ),
        λ e f.
            simp (start_session, e, up, spawn, f)
              (
                (set_status-Quiet _ _).proc
                    ∙ (set_status-Quiet _ (set_waveform (waveform_of cfg) u)).proc
                    ∙ (set_waveform-Quiet (waveform_of cfg) u).proc
                    ∙ free e,
                _,
                refl,
              ),
      )
