-- ===== src/Server/Session.antt =====
-- One client at a time, and what a new session starts from.
use rmcast.Base.{
  ℕ, ◌/◌, ◌≡◌, refl, List, Option, some, Bool, true, false, if◌then◌else◌, ◌==◌, Bool-cases, inl,
  inr, sym, ap, ◌∙◌, [], none,
}
use rmcast.Base.Int.{pos, negsuc}
use rmcast.Protocol.{to_int32, mode_auto, ack_bytes, version}
use rmcast.Server.{
  Server, Socket, emit, on_socket, close_socket, on_new_connection, on_socket_disconnected,
  reset_session, ack_of, handle_hello,
}
use rmcast.Server.Shown.{Arrival, step, step-shown, Signalled, first_is_shown}

-- The socket of a client whose greeting has been answered with `reply`.
abbrev pub answered : List ℕ → List ℕ → Bool → Option Socket
answered inbox reply is_closing =
    some (record { inbox = inbox; outbox = reply; is_closing = is_closing })

-- What `start` has set.
pub record Geometry : Type 0 where
  pub w : ℕ
  pub h : ℕ
  pub stride : ℕ
  pub bpp : ℕ
  pub format : ℕ
  pub shm_name : List ℕ

abbrev pub geometry : Server → Geometry
geometry s = record {
  w = s.w;
  h = s.h;
  stride = s.stride;
  bpp = s.bpp;
  format = s.format;
  shm_name = s.shm_name;
}

-- The server after the greeting of the next client, when the last one has gone.
abbrev pub next_session : Server → List ℕ → ℕ → ℕ → Server
next_session s bytes v fps =
    handle_hello (on_new_connection (on_socket_disconnected s) bytes).0 v fps

begun : Geometry → List ℕ → ℕ → ℕ → Server
unfolding ack_of
begun g bytes v fps =
    let blank : Server = record {
      w = g.w;
      h = g.h;
      stride = g.stride;
      bpp = g.bpp;
      format = g.format;
      shm_name = g.shm_name;
      fps_cap = fps;
      min_period_ms = if fps == 0 then 0 else 1000 / fps;
      last_emit_ms = 0;
      last_frame_mode = mode_auto;
      cursor_x = negsuc 0;
      cursor_y = negsuc 0;
      cursor_w = pos 0;
      cursor_h = pos 0;
      cursor_visible = false;
      socket = none;
      signals = [];
    } in
    record blank {
      socket = answered bytes (ack_bytes (ack_of blank v)) (if v == version then false else true);
    }

next_session-begun :
    (s : Server) (bytes : List ℕ) (v fps : ℕ)
    → record (next_session s bytes v fps) { signals = [] } ≡ begun (geometry s) bytes v fps
unfolding on_new_connection on_socket_disconnected handle_hello reset_session ack_of emit on_socket
    close_socket begun
next_session-begun s bytes v fps = elim (Bool-cases (v == version)) [
  | inl e ↦ rw e refl
  | inr e ↦ rw e refl
]

-- While a client is connected another one is told to go, and changes nothing. Once the client has
-- gone, the greeting of the next one starts a session that depends on nothing of the last one: two
-- servers that `start` has set up alike are then in the same state, whatever their sessions, caps,
-- cursors and frames have been before, but for the signals that they have emitted. And the first
-- frame of the session is shown, whatever the clock reads and whatever cap the client asks for.
pub handle_hello_fresh :
    (s s' : Server) (k : Socket) (a : Arrival) (bytes bytes' : List ℕ) (v fps : ℕ)
    → s.socket ≡ some k
    → geometry s ≡ geometry s'
    → let t = next_session s bytes v fps in
      (on_new_connection s bytes'
        ≡ (s, some (record { inbox = bytes'; outbox = []; is_closing = true })))
      × (record t { signals = [] } ≡ record (next_session s' bytes v fps) { signals = [] })
      × Signalled t.signals a.seq
          (to_int32 a.x)
          (to_int32 a.y)
          (to_int32 a.w)
          (to_int32 a.h)
          (step t a).signals
unfolding on_new_connection begun
handle_hello_fresh s s' k a bytes bytes' v fps connected alike =
    let t = next_session s bytes v fps in
    let same = next_session-begun s bytes v fps in
    (
      simp (on_new_connection, connected) refl,
      same
          ∙ ap (λ (g : Geometry). begun g bytes v fps) alike
          ∙ sym (next_session-begun s' bytes v fps),
      elim (step-shown t a) [
        | inl (held, still) ↦
            absurd (differ (first_is_shown t a (ap (λ (u : Server). u.last_emit_ms) same)) held)
        | inr (shown, mode, signals) ↦ signals
      ],
    )
  where
    differ : {b : Bool} → b ≡ true → b ≡ false → ⊥
    differ e f = cc
