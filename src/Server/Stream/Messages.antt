-- ===== src/Server/Stream/Messages.antt =====
-- What the client writes is what the server handles.
use rmcast.Base.{
  ℕ, ◌+◌, ◌-◌, ◌<◌, ◌≤◌, ◌^◌, ◌≡◌, List, ◌++◌, ◌*◌, ◌/◌, ◌%◌, some, Bool, true, false, arith, ap,
  ◌∙◌, ltb, length, not, ◌==◌,
}
use rmcast.Base.Int.{ℤ, pos, negsuc, ◌≤ℤ◌, ◌<ℤ◌}
use rmcast.Protocol.{
  hello_size, frame_size, cursor_size, bye_size, encode, words, word_at, to_int32, of_int32,
  Message, hello, frame, cursor, bye,
}
use rmcast.Protocol.Codec.{to_int32-of_int32}
use rmcast.Server.{
  Server, Socket, close_socket, handle_hello, handle_frame, handle_cursor, read_hello, read_frame,
  read_cursor, read_bye, read_message,
}

-- The values that the fields of the structs can hold.
abbrev IsWord : ℕ → Type 0
IsWord n = n < 2 ^ 32

abbrev pub IsInt32 : ℤ → Type 0
IsInt32 a = (negsuc (2 ^ 31 - 1) ≤ℤ a) × (a <ℤ pos (2 ^ 31))

abbrev pub InRange : Message → Type 0
InRange (hello v w h fps) = IsWord v × IsWord w × IsWord h × IsWord fps
InRange (frame seq x y w h mode) =
    IsWord seq × IsWord x × IsWord y × IsWord w × IsWord h × IsWord mode
InRange (cursor x y w h visible) = IsInt32 x × IsInt32 y × IsWord w × IsWord h × IsWord visible
InRange (bye reason) = IsWord reason

-- The server's handler for a message, and whether the loop goes on after it.
unfoldable pub handled : ℕ → Server → Message → Server × Bool
handled now s (hello v w h fps) = (handle_hello s v fps, true)
handled now s (frame seq x y w h mode) = (handle_frame now s seq x y w h mode, true)
handled now s (cursor x y w h visible) =
    (handle_cursor s x y (to_int32 w) (to_int32 h) (not (visible == 0)), true)
handled now s (bye reason) = (close_socket s, false)

-- A server whose socket holds these bytes.
pub with_inbox : Server → Socket → List ℕ → Server
with_inbox s k bytes = record s { socket = some (record k { inbox = bytes }) }

le_value :
    (n : ℕ)
    → IsWord n
    → n % 256 + 256 * (n / 256 % 256) + 65536 * (n / 65536 % 256) + 16777216 * (n / 16777216 % 256)
      ≡ n
le_value n h = omega arith

not_short : (m n : ℕ) → n ≤ m → ltb m n ≡ false
not_short m n h = ground arith

pub of_int32-IsWord : (a : ℤ) → IsInt32 a → IsWord (of_int32 a)
unfolding of_int32
of_int32-IsWord (pos n) h = omega arith
of_int32-IsWord (negsuc n) h = omega arith

signed_value :
    (a : ℤ)
    → IsInt32 a
    → let n = of_int32 a in
      to_int32 (
        n % 256
        + 256 * (n / 256 % 256)
        + 65536 * (n / 65536 % 256)
        + 16777216 * (n / 16777216 % 256))
      ≡ a
signed_value a h =
    ap to_int32 (le_value (of_int32 a) (of_int32-IsWord a h)) ∙ to_int32-of_int32 a h.0 h.1

-- A message that has come in whole, with more bytes behind it.
abbrev ReadsBack : Message → Type 0
ReadsBack m =
    (now : ℕ) (s : Server) (k : Socket) (rest : List ℕ)
    → let bytes = encode (words m) ++ rest in
      read_message now (with_inbox s k bytes) bytes ≡ handled now (with_inbox s k rest) m

hello_back : (v w h fps : ℕ) → InRange (hello v w h fps) → ReadsBack (hello v w h fps)
unfolding words encode handled with_inbox read_message word_at
hello_back v w h fps (a, b, c, d) now s k rest =
    rw
      (
        not_short (length (encode (words (hello v w h fps)) ++ rest)) hello_size (omega arith),
        read_hello,
      )
      (λ i. (handle_hello (with_inbox s k rest) (le_value v a i) (le_value fps d i), true))

frame_back :
    (seq x y w h mode : ℕ) → InRange (frame seq x y w h mode) → ReadsBack (frame seq x y w h mode)
unfolding words encode handled with_inbox read_message word_at
frame_back seq x y w h mode (a, b, c, d, e, f) now s k rest =
    rw
      (
        not_short (length (encode (words (frame seq x y w h mode)) ++ rest)) frame_size
            (omega arith),
        read_frame,
      )
      (λ i. (
        handle_frame now (with_inbox s k rest) (le_value seq a i) (le_value x b i) (le_value y c i)
            (le_value w d i) (le_value h e i) (le_value mode f i),
        true,
      ))

cursor_back :
    (x y : ℤ) (w h visible : ℕ)
    → InRange (cursor x y w h visible)
    → ReadsBack (cursor x y w h visible)
unfolding words encode handled with_inbox read_message word_at
cursor_back x y w h visible (a, b, c, d, e) now s k rest =
    rw
      (
        not_short (length (encode (words (cursor x y w h visible)) ++ rest)) cursor_size
            (omega arith),
        read_cursor,
      )
      (λ i. (
        handle_cursor (with_inbox s k rest) (signed_value x a i) (signed_value y b i)
            (to_int32 (le_value w c i)) (to_int32 (le_value h d i))
            (not (le_value visible e i == 0)),
        true,
      ))

bye_back : (reason : ℕ) → InRange (bye reason) → ReadsBack (bye reason)
unfolding words encode handled with_inbox read_message word_at
bye_back reason a now s k rest =
    rw (not_short (length (encode (words (bye reason)) ++ rest)) bye_size (omega arith), read_bye)

-- A message whose fields fit their words, written as the client writes it, is handled by the
-- server's handler for it, with the very values that the client put in, whatever follows it on
-- the socket, and exactly its bytes are taken out of the socket's buffer.
pub read_message-encode :
    (m : Message) (now : ℕ) (s : Server) (k : Socket) (rest : List ℕ)
    → InRange m
    → let bytes = encode (words m) ++ rest in
      read_message now (with_inbox s k bytes) bytes ≡ handled now (with_inbox s k rest) m
read_message-encode (hello v w h fps) now s k rest r = hello_back v w h fps r now s k rest
read_message-encode (frame seq x y w h mode) now s k rest r =
    frame_back seq x y w h mode r now s k rest
read_message-encode (cursor x y w h visible) now s k rest r =
    cursor_back x y w h visible r now s k rest
read_message-encode (bye reason) now s k rest r = bye_back reason r now s k rest
