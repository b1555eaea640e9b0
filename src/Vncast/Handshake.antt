-- ===== src/Vncast/Handshake.antt =====
-- `handshake` of src/rmioc/vncast_client.cpp. The values of the environment, the 100 bytes of the
-- answer and the mapping of the shared memory are arguments; `strtol` is applied to `VNCAST_FPS`.
pub mod Agreement
pub mod Hello
pub mod Detected
use Prim.Native.String.{String}
use text.Mathlib.Text.{◌==◌ as str_eq}
use rmcast.Base.{
  ℕ, ◌+◌, ◌*◌, ◌%◌, ◌^◌, List, [], ◌∷◌, Option, none, some, Bool, true, false, not, ◌||◌, ◌&&◌,
  if◌then◌else◌, ◌==◌, take, drop, replicate, min, ◌⊎◌, inl, inr,
}
use rmcast.Base.Int.{ℤ, pos, negsuc, pos_part, ltb_ℤ, leb_ℤ}
use rmcast.Protocol.{magic, version, tag_hello_ack, word_at, Message, hello}
use rmcast.Vncast.{Connection}

-- The exceptions of `handshake` and `open_shm`.
pub data HandshakeError : Type 0 where
  bad_header rejected no_shm : HandshakeError

-- The environment: `VNCAST_FPS` as a number, and two values as they are.
pub record Settings : Type 0 where
  pub fps : Option ℤ
  pub waveform : Option String
  pub grayscale : Option String

pub fps_cap_of : Option ℤ → ℕ
fps_cap_of none = 0
fps_cap_of (some v) = if ltb_ℤ (pos 0) v && leb_ℤ v (pos 120) then pos_part v else 0

-- `env[0] == '1'`
unfoldable pub starts_with_one : String → Bool
starts_with_one String.[] = false
starts_with_one (String.◌∷◌ c v) = str_eq (String.◌∷◌ c String.[]) "1"

pub force_grayscale_of : Settings → Bool
unfolding starts_with_one
force_grayscale_of e = elim e.grayscale [
  | some v ↦ starts_with_one v
  | none ↦ elim e.waveform [ none ↦ false | some v ↦ str_eq v "A2" || str_eq v "DU" ]
]

-- The message that opens the session.
pub hello_of : Settings → Message
unfolding fps_cap_of
hello_of e = hello version 0 0 (fps_cap_of e.fps)

pub ack_name : List ℕ → List ℕ
ack_name ack = take (min (word_at ack 32) 64) (drop 36 ack)

-- The connection after the answer `ack`, with the shared memory mapped.
pub connected : Settings → List ℕ → List ℕ → Connection
unfolding force_grayscale_of ack_name
connected e ack shm = record {
  w = word_at ack 12;
  h = word_at ack 16;
  stride = word_at ack 20;
  bpp = word_at ack 24;
  format = word_at ack 28;
  seq = 0;
  shm_name = ack_name ack;
  shm = shm;
  shadow = replicate (word_at ack 12 * word_at ack 16 * 2) 0;
  force_grayscale = force_grayscale_of e;
  cursor_x = negsuc 0;
  cursor_y = negsuc 0;
  cursor_w = 0;
  cursor_h = 0;
  cursor_visible = false;
  sent = [];
}

-- `open_shm` maps the object of a name with a size in bytes.
pub handshake : Settings → (List ℕ → ℕ → Option (List ℕ)) → List ℕ → HandshakeError ⊎ Connection
unfolding connected ack_name
handshake e open_shm ack =
    if not (word_at ack 0 == magic) || not (word_at ack 4 == tag_hello_ack)
    then inl bad_header
    else if word_at ack 8 == 0
    then inl rejected
    else elim (open_shm (ack_name ack) (word_at ack 20 * word_at ack 16 % 2 ^ 32)) [
      | none ↦ inl no_shm
      | some shm ↦ inr (connected e ack shm)
    ]
