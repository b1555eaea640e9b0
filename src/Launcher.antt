-- ===== src/Launcher.antt =====
-- `VncastLauncher` (middleware/extension/src/launcher.cpp, launcher.h): the overlay, the cast server
-- that a session needs, and the process of the VNC client. The display hook is off by default and
-- left out.
pub mod Quiet
pub mod Session
pub mod Started
pub mod Tests
use Prim.Native.String.{String}
use text.Mathlib.Text.{◌==◌ as same_text}
use rmcast.Base.{
  ℕ, List, [], ◌∷◌, ◌++◌, Option, none, some, Bool, true, false, ◌||◌, if◌then◌else◌, ◌==◌,
}
use rmcast.Base.Int.{ℤ, pos, negsuc, ◌-ℤ◌, eq_ℤ}
use rmcast.Settings.{Config, same_bool}

-- The arguments of `QString::arg`, which with the text of a number is Qt's.
pub data Argument : Type 0 where
  name : String → Argument
  number : ℤ → Argument

pub record Qt : Type 0 where
  pub arg : String → List Argument → String
  pub text_of : ℤ → String

pub data SessionSignal : Type 0 where
  session_started overlay_open_changed qtfb_server_changed session_status_changed : SessionSignal
  session_ended : ℤ → SessionSignal

-- What the launcher sees of the cast server.
pub record CastServer : Type 0 where
  pub grayscale_shm : Bool
  pub has_shm : Bool
  pub waveform : String

-- The operand of the client's command line: the host, or `host:display`.
pub data Operand : Type 0 where
  host_alone : String → Operand
  host_display : String → ℤ → Operand

-- What a process is started with; `environment` is what is added to the system's.
pub record Spawn : Type 0 where
  pub operand : Operand
  pub environment : List (String × String)

-- `overlay` is the `active` property of the loader, once there is one; `proc` is the process that
-- `m_proc` points to, while it runs.
pub record Launcher : Type 0 where
  pub overlay : Option Bool
  pub overlay_open : Bool
  pub server : Option CastServer
  pub proc : Option Spawn
  pub status : String
  pub signals : List SessionSignal

unfoldable pub initial : Launcher
initial = record {
  overlay = none;
  overlay_open = false;
  server = none;
  proc = none;
  status = "";
  signals = [];
}

unfoldable pub emit : SessionSignal → Launcher → Launcher
emit x l = record l { signals = l.signals ++ x ∷ [] }

unfoldable pub register_overlay_loader : Bool → Launcher → Launcher
register_overlay_loader active l = record l { overlay = some active }

unfoldable pub set_overlay_open : Bool → Launcher → Launcher
set_overlay_open v l =
    if same_bool l.overlay_open v
    then l
    else emit overlay_open_changed (record l { overlay_open = v })

unfoldable pub open_overlay : Launcher → Launcher
open_overlay l = elim l.overlay [
  | none ↦ l
  | some _ ↦ set_overlay_open true (record l { overlay = some true })
]

unfoldable pub close_overlay : Launcher → Launcher
close_overlay l = elim l.overlay [
  | none ↦ l
  | some _ ↦ set_overlay_open false (record l { overlay = some false })
]

unfoldable pub set_status : String → Launcher → Launcher
set_status s l =
    if same_text l.status s then l else emit session_status_changed (record l { status = s })

unfoldable pub get_or {ℓ} : {A : Type ℓ} → Option A → A → A
get_or none d = d
get_or (some a) d = a

-- The server that is up with the format that is asked for, if there is one.
unfoldable pub is_ready : Bool → Launcher → Bool
is_ready grayscale l = elim l.server [
  | none ↦ false
  | some s ↦ if s.has_shm then same_bool s.grayscale_shm grayscale else false
]

-- A server that is up with the other format is given up.
unfoldable pub give_up : Launcher → Launcher
give_up l = elim l.server [
  | none ↦ l
  | some s ↦ if s.has_shm then emit qtfb_server_changed (record l { server = none }) else l
]

unfoldable pub waveform_of : Config → String
waveform_of cfg = if get_or cfg.low_latency false then "DU" else get_or cfg.waveform "A2"

unfoldable pub flag_text : Bool → String
flag_text b = if b then "1" else "0"

unfoldable pub set_waveform : String → Launcher → Launcher
set_waveform w l = elim l.server [
  | none ↦ l
  | some s ↦ record l { server = some (record s { waveform = w }) }
]

-- What the system answers: whether the server starts, the size of its framebuffer, whether the
-- process starts in time, and its number or the error.
pub record Starting : Type 0 where
  pub server_starts : Bool
  pub fb_width : ℤ
  pub fb_height : ℤ
  pub process_starts : Bool
  pub pid : ℤ
  pub error : String

-- The exit codes with which the process ends during the first and the second wait, if it does.
pub record Stopping : Type 0 where
  pub terminated : Option ℤ
  pub killed : Option ℤ

unfoldable pub on_client_connected : Launcher → Launcher
on_client_connected = set_status "vnsee connected — waiting for first frame…"

unfoldable pub on_client_disconnected : Launcher → Launcher
on_client_disconnected = set_status "vnsee disconnected"

unfoldable pub on_frame_ready : ℕ → Launcher → Launcher
on_frame_ready seq l = if (seq == 0) || (seq == 1) then set_status "Receiving frames" l else l

module _ (qt : Qt) where
  -- A server without memory is used again, or a new one is made.
  unfoldable pub bring_up : Starting → Bool → Launcher → Launcher × Bool
  bring_up a grayscale l =
      let t =
        set_status
          (qt.arg "Allocating shared framebuffer (%1×%2, %3)…" (
            number a.fb_width
            ∷ number a.fb_height
            ∷ name (if grayscale then "8 bpp gray" else "32 bpp RGBA")
            ∷ []))
          l in
      let waveform : String = elim l.server [ none ↦ "A2" | some s ↦ s.waveform ] in
      if a.server_starts
      then (
        emit qtfb_server_changed (record t {
          server = some (record { grayscale_shm = grayscale; has_shm = true; waveform = waveform });
        }),
        true,
      )
      else (
        emit qtfb_server_changed
            (record (set_status "Framebuffer server failed to start" t) { server = none }),
        false,
      )

  -- `ensureServerStarted`.
  unfoldable pub ensure_server_started : Starting → Bool → Launcher → Launcher × Bool
  ensure_server_started a grayscale l =
      if is_ready grayscale l then (l, true) else bring_up a grayscale (give_up l)

  unfoldable pub spawn_of : Config → Spawn
  spawn_of cfg =
      let host = get_or cfg.host "10.11.99.2" in
      let port = get_or cfg.port (pos 5900) in
      let encoding = get_or cfg.encoding "COPYRECT" in
      record {
        operand =
            if eq_ℤ port (pos 5900) then host_alone host else host_display host (port -ℤ pos 5900);
        environment =
            ("VNCAST_QTFB_SOCKET", "/run/vncast.sock")
            ∷ ("VNCAST_FPS", qt.text_of (get_or cfg.fps (pos 0)))
            ∷ ((if same_text encoding "COPYRECT" then [] else ("VNSEE_ENCODING", encoding) ∷ [])
                ++ ("VNCAST_WAVEFORM", waveform_of cfg)
                  ∷ ("VNCAST_ORIENTATION", get_or cfg.orientation "auto")
                  ∷ ("VNCAST_FORCE_GRAYSCALE", flag_text (get_or cfg.grayscale true))
                  ∷ ("VNCAST_PREFER_MONO1", flag_text (get_or cfg.mono1 false))
                  ∷ ("VNCAST_COMPRESS_LEVEL", qt.text_of (get_or cfg.compress_level (pos 0)))
                  ∷ []);
      }

  -- From the waveform on, with a server that is up.
  unfoldable pub spawn : Starting → Config → Launcher → Launcher
  spawn a cfg l =
      let t =
        set_status
          (qt.arg "Spawning vnsee → %1:%2…"
            (name (get_or cfg.host "10.11.99.2") ∷ number (get_or cfg.port (pos 5900)) ∷ []))
          (set_waveform (waveform_of cfg) l) in
      if a.process_starts
      then emit session_started (
          set_status
            (qt.arg "vnsee running (pid %1) — waiting for it to connect…" (number a.pid ∷ []))
            (record t { proc = some (spawn_of cfg) }))
      else emit (session_ended (negsuc 0))
          (set_status (qt.arg "vnsee failed to start: %1" (name a.error ∷ [])) t)

  unfoldable pub start_session : Starting → Config → Launcher → Launcher
  start_session a cfg l = elim l.proc [
    | some _ ↦ l
    | none ↦
        let (t, up) =
          ensure_server_started a (get_or cfg.grayscale true)
            (set_status "Starting framebuffer server…" l) in
        if up then spawn a cfg t else emit (session_ended (negsuc 0)) t
  ]

  -- The lambda for `QProcess::finished`.
  unfoldable pub on_finished : ℤ → Launcher → Launcher
  on_finished code l =
      let t =
        set_status
          (if eq_ℤ code (pos 0)
            then "vnsee exited cleanly"
            else qt.arg "vnsee exited (code %1)" (number code ∷ []))
          l in
      record (emit (session_ended code) t) { proc = none }

  unfoldable pub stop_session : Stopping → Launcher → Launcher
  stop_session a l = elim l.proc [
    | none ↦ emit (session_ended (pos 0)) (set_status "Disconnected" l)
    | some _ ↦
        let t = set_status "Stopping vnsee…" l in
        let u : Launcher = elim a.terminated [
          | some code ↦ on_finished code t
          | none ↦ elim a.killed [ some code ↦ on_finished code t | none ↦ t ]
        ] in
        set_status "Disconnected" u
  ]
