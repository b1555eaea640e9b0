-- ===== src/Vncast/Handshake/Hello.antt =====
-- The client's greeting at the server.
use rmcast.Base.{ℕ, ◌≤◌, ◌≡◌, List, ◌++◌, Option, some, none, true, arith}
use rmcast.Base.Int.{ℤ, pos, leb_ℤ-cases, ltb_ℤ-cases}
use rmcast.Protocol.{version, encode, words}
use rmcast.Server.{Server, Socket, handle_hello, read_message}
use rmcast.Server.Stream.Messages.{InRange, with_inbox, handled, read_message-encode}
use rmcast.Vncast.Handshake.{Settings, fps_cap_of, hello_of}

fps_cap_of_bound : (v : Option ℤ) → fps_cap_of v ≤ 120
unfolding fps_cap_of
fps_cap_of_bound none = omega arith
fps_cap_of_bound (some v) = ground (arith, ltb_ℤ-cases (pos 0) v, leb_ℤ-cases v (pos 120))

hello_of-InRange : (e : Settings) → InRange (hello_of e)
unfolding hello_of
hello_of-InRange e = (omega arith, omega arith, omega arith, omega (arith, fps_cap_of_bound e.fps))

-- The greeting that the client sends is handled by the server as one of its own version, with a frame
-- cap of at most 120 whatever the environment holds.
pub hello_of_arrives :
    (e : Settings) (now : ℕ) (s : Server) (k : Socket) (rest : List ℕ)
    → let bytes = encode (words (hello_of e)) ++ rest in
      (read_message now (with_inbox s k bytes) bytes
        ≡ (handle_hello (with_inbox s k rest) version (fps_cap_of e.fps), true))
      × (fps_cap_of e.fps ≤ 120)
unfolding hello_of handled
hello_of_arrives e now s k rest =
    (read_message-encode (hello_of e) now s k rest (hello_of-InRange e), fps_cap_of_bound e.fps)
