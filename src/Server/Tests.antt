-- ===== src/Server/Tests.antt =====
-- The theorems on the server applied to a server with one client.
use rmcast.Base.{ℕ, ◌≡◌, refl, [], ◌∷◌, ◌++◌, some, true, false, arith}
use rmcast.Base.Int.{pos, negsuc}
use rmcast.Protocol.{to_int32, frame, encode, words}
use rmcast.Server.{Server, Socket, read_message, on_socket_ready_read, on_new_connection}
use rmcast.Server.Stream.Total.{on_socket_ready_read_total}
use rmcast.Server.Stream.Messages.{handled, with_inbox, read_message-encode}
use rmcast.Server.Session.{next_session, handle_hello_fresh}
use rmcast.Server.Shown.{Arrival, step, Signalled}

abbrev client : Socket
client = record { inbox = 1 ∷ 2 ∷ []; outbox = []; is_closing = false }

abbrev small_server : Server
small_server = record {
  w = 2;
  h = 1;
  stride = 8;
  bpp = 32;
  format = 1;
  shm_name = 47 ∷ 118 ∷ [];
  fps_cap = 10;
  min_period_ms = 100;
  last_emit_ms = 0;
  last_frame_mode = 4;
  cursor_x = negsuc 0;
  cursor_y = negsuc 0;
  cursor_w = pos 0;
  cursor_h = pos 0;
  cursor_visible = false;
  socket = some client;
  signals = [];
}

abbrev whole_frame : ℕ → Arrival
whole_frame now = record { now = now; seq = now; x = 0; y = 0; w = 1620; h = 2160; mode = 3 }

on_socket_ready_read_total_example :
    (t : Server) × (on_socket_ready_read 1000 small_server ≡ some t)
on_socket_ready_read_total_example = on_socket_ready_read_total 1000 small_server

read_message-encode_example :
    let bytes = encode (words (frame 1 0 0 2 1 3)) ++ 9 ∷ [] in
    read_message 1000 (with_inbox small_server client bytes) bytes
    ≡ handled 1000 (with_inbox small_server client (9 ∷ [])) (frame 1 0 0 2 1 3)
read_message-encode_example =
    read_message-encode (frame 1 0 0 2 1 3) 1000 small_server client (9 ∷ [])
      (omega arith, omega arith, omega arith, omega arith, omega arith, omega arith)

-- A server in the middle of a session.
abbrev used_server : Server
used_server = record small_server { cursor_w = pos 9; last_emit_ms = 77; fps_cap = 3 }

handle_hello_fresh_example :
    let t = next_session small_server (5 ∷ []) 1 20 in
    (on_new_connection small_server (6 ∷ [])
      ≡ (small_server, some (record { inbox = 6 ∷ []; outbox = []; is_closing = true })))
    × (record t { signals = [] } ≡ record (next_session used_server (5 ∷ []) 1 20) { signals = [] })
    × Signalled t.signals 1000
        (to_int32 0)
        (to_int32 0)
        (to_int32 1620)
        (to_int32 2160)
        (step t (whole_frame 1000)).signals
handle_hello_fresh_example =
    handle_hello_fresh small_server used_server client (whole_frame 1000) (5 ∷ []) (6 ∷ []) 1 20
      refl refl
