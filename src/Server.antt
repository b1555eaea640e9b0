-- ===== src/Server.antt =====
-- `vncast::qtfb::Server` of middleware/extension/src/qtfb/server.cpp and server.h: the state that
-- its socket handlers keep, and the handlers. Time is in milliseconds. `disconnectFromServer` is
-- noted in the socket; Qt reports the disconnection later, as an event of its own.
pub mod Stream
pub mod Shown
pub mod Throttle
pub mod Session
mod Tests
use rmcast.Base.{
  ℕ, zero, suc, ◌+◌, ◌-◌, ◌/◌, ◌*◌, List, [], ◌∷◌, ◌++◌, Option, none, some, Bool, true, false, not,
  ◌&&◌, ◌||◌, if◌then◌else◌, ltb, leb, ◌==◌, length, drop, min,
}
use rmcast.Base.Int.{ℤ, pos, negsuc, eq_ℤ}
use rmcast.Protocol.{
  magic, version, tag_hello, tag_frame, tag_cursor, tag_bye, mode_auto, header_size, hello_size,
  frame_size, cursor_size, bye_size, word_at, to_int32, Ack, ack_bytes,
}

-- `m_socket`: the bytes that can be read, those that were written, and whether it was told to close.
pub record Socket : Type 0 where
  pub inbox : List ℕ
  pub outbox : List ℕ
  pub is_closing : Bool

pub data Signal : Type 0 where
  frame_ready : (seq : ℕ) (x y dw dh : ℤ) → Signal
  last_frame_mode_changed cursor_changed client_connected client_disconnected : Signal

-- `w` to `format` and `shm_name` are set by `start`.
pub record Server : Type 0 where
  pub w : ℕ
  pub h : ℕ
  pub stride : ℕ
  pub bpp : ℕ
  pub format : ℕ
  pub shm_name : List ℕ
  pub fps_cap : ℕ
  pub min_period_ms : ℕ
  pub last_emit_ms : ℕ
  pub last_frame_mode : ℕ
  pub cursor_x : ℤ
  pub cursor_y : ℤ
  pub cursor_w : ℤ
  pub cursor_h : ℤ
  pub cursor_visible : Bool
  pub socket : Option Socket
  pub signals : List Signal

pub emit : Server → Signal → Server
emit s sig = record s { signals = s.signals ++ sig ∷ [] }

pub on_socket : Server → (Socket → Socket) → Server
on_socket s f = elim s.socket [ none ↦ s | some k ↦ record s { socket = some (f k) } ]

pub close_socket : Server → Server
unfolding on_socket
close_socket s = on_socket s (λ k. record k { is_closing = true })

pub consume : ℕ → Server → Server
unfolding on_socket
consume n s = on_socket s (λ k. record k { inbox = drop n k.inbox })

pub inbox : Server → List ℕ
inbox s = elim s.socket [ none ↦ [] | some k ↦ k.inbox ]

-- The second part is the new socket where it is refused, as it is left.
pub on_new_connection : Server → List ℕ → Server × Option Socket
unfolding emit
on_new_connection s bytes = elim s.socket [
  | some k ↦ (s, some (record { inbox = bytes; outbox = []; is_closing = true }))
  | none ↦ (
    emit (record s { socket = some (record { inbox = bytes; outbox = []; is_closing = false }) })
        client_connected,
    none,
  )
]

pub on_socket_disconnected : Server → Server
unfolding emit
on_socket_disconnected s = emit (record s { socket = none }) client_disconnected

-- The fields that `handleHello` resets, and its two signals.
pub reset_session : Server → ℕ → Server
unfolding emit
reset_session s requested_fps =
    emit
      (emit
        (record s {
          fps_cap = requested_fps;
          min_period_ms = if requested_fps == 0 then 0 else 1000 / requested_fps;
          last_emit_ms = 0;
          cursor_x = negsuc 0;
          cursor_y = negsuc 0;
          cursor_w = pos 0;
          cursor_h = pos 0;
          cursor_visible = false;
          last_frame_mode = mode_auto;
        })
        cursor_changed)
      last_frame_mode_changed

unfoldable pub ack_of : Server → ℕ → Ack
ack_of s client_version = record {
  accepted = if client_version == version then 1 else 0;
  w = s.w;
  h = s.h;
  stride = s.stride;
  bpp = s.bpp;
  format = s.format;
  shm_name_len = min (length s.shm_name) 64;
  shm_name = s.shm_name;
}

pub handle_hello : Server → ℕ → ℕ → Server
unfolding reset_session on_socket close_socket ack_of
handle_hello s client_version requested_fps =
    let ack = ack_of s client_version in
    let reset = reset_session s requested_fps in
    let answered = on_socket reset (λ k. record k { outbox = k.outbox ++ ack_bytes ack }) in
    if ack.accepted == 0 then close_socket answered else answered

-- A dirty rectangle that the cap does not hold back.
pub is_small_rect : ℕ → ℕ → Bool
is_small_rect w h = ltb 0 w && ltb 0 h && leb w 256 && leb h 256

pub is_capped : Server → ℕ → ℕ → Bool
unfolding is_small_rect
is_capped s w h = not (is_small_rect w h) && ltb 0 s.fps_cap && ltb 0 s.min_period_ms

pub too_soon : ℕ → Server → Bool
too_soon now s = not (s.last_emit_ms == 0) && ltb now (s.last_emit_ms + s.min_period_ms)

pub note_mode : Server → ℕ → Server
unfolding emit
note_mode s mode =
    if mode == s.last_frame_mode
    then s
    else emit (record s { last_frame_mode = mode }) last_frame_mode_changed

pub show_frame : Server → ℕ → ℕ → ℕ → ℕ → ℕ → ℕ → Server
unfolding note_mode emit
show_frame s seq x y w h mode =
    emit (note_mode s mode) (frame_ready seq (to_int32 x) (to_int32 y) (to_int32 w) (to_int32 h))

pub handle_frame : ℕ → Server → ℕ → ℕ → ℕ → ℕ → ℕ → ℕ → Server
unfolding is_capped too_soon
handle_frame now s seq x y w h mode =
    if is_capped s w h
    then if too_soon now s then s else show_frame (record s { last_emit_ms = now }) seq x y w h mode
    else show_frame s seq x y w h mode

pub cursor_differs : Server → ℤ → ℤ → ℤ → ℤ → Bool → Bool
cursor_differs s x y w h visible =
    not (eq_ℤ x s.cursor_x)
    || not (eq_ℤ y s.cursor_y)
    || not (eq_ℤ w s.cursor_w)
    || not (eq_ℤ h s.cursor_h)
    || (if visible then not s.cursor_visible else s.cursor_visible)

pub handle_cursor : Server → ℤ → ℤ → ℤ → ℤ → Bool → Server
unfolding cursor_differs emit
handle_cursor s x y w h visible =
    let moved : Server = record s {
      cursor_x = x;
      cursor_y = y;
      cursor_w = w;
      cursor_h = h;
      cursor_visible = visible;
    } in
    if cursor_differs s x y w h visible then emit moved cursor_changed else moved

-- One round of the loop of `onSocketReadyRead`: the server, and whether the loop goes on.
pub read_hello : Server → List ℕ → Server × Bool
unfolding consume handle_hello
read_hello s bytes =
    if ltb (length bytes) hello_size
    then (s, false)
    else (handle_hello (consume hello_size s) (word_at bytes 8) (word_at bytes 20), true)

pub read_frame : ℕ → Server → List ℕ → Server × Bool
unfolding consume handle_frame
read_frame now s bytes = if ltb (length bytes) frame_size then (s, false) else (
  handle_frame now (consume frame_size s) (word_at bytes 8) (word_at bytes 12) (word_at bytes 16)
      (word_at bytes 20) (word_at bytes 24) (word_at bytes 28),
  true,
)

pub read_cursor : Server → List ℕ → Server × Bool
unfolding consume handle_cursor
read_cursor s bytes = if ltb (length bytes) cursor_size then (s, false) else (
  handle_cursor (consume cursor_size s) (to_int32 (word_at bytes 8)) (to_int32 (word_at bytes 12))
      (to_int32 (word_at bytes 16)) (to_int32 (word_at bytes 20)) (not (word_at bytes 24 == 0)),
  true,
)

pub read_bye : Server → List ℕ → Server × Bool
unfolding consume close_socket
read_bye s bytes =
    if ltb (length bytes) bye_size then (s, false) else (close_socket (consume bye_size s), false)

pub read_message : ℕ → Server → List ℕ → Server × Bool
unfolding read_hello read_frame read_cursor read_bye close_socket
read_message now s bytes =
    if not (word_at bytes 0 == magic)
    then (close_socket s, false)
    else if word_at bytes 4 == tag_hello
    then read_hello s bytes
    else if word_at bytes 4 == tag_frame
    then read_frame now s bytes
    else if word_at bytes 4 == tag_cursor
    then read_cursor s bytes
    else if word_at bytes 4 == tag_bye
    then read_bye s bytes
    else (close_socket s, false)

-- The loop, with fuel; `none` means that the fuel ran out. All rounds read one time.
pub read_loop : ℕ → ℕ → Server → Option Server
unfolding read_message inbox
read_loop zero now s = none
read_loop (suc fuel) now s =
    let (t, goes_on) = read_message now s (inbox s) in
    let rest = read_loop fuel now t in
    if ltb (length (inbox s)) header_size then some s else if goes_on then rest else some t

pub on_socket_ready_read : ℕ → Server → Option Server
unfolding read_loop
on_socket_ready_read now s = read_loop (suc (length (inbox s))) now s
