-- ===== src/Protocol.antt =====
-- The wire protocol of middleware/extension/src/qtfb/protocol.h, which src/rmioc/vncast_client.hpp
-- repeats: packed structs of little-endian 32-bit words.
pub mod Codec
use rmcast.Base.{
  ℕ, zero, suc, ◌+◌, ◌-◌, ◌*◌, ◌/◌, ◌%◌, ◌^◌, List, [], ◌∷◌, ◌++◌, if◌then◌else◌, ltb, leb, length,
  take, replicate,
}
use rmcast.Base.Int.{ℤ, pos, negsuc}

abbrev pub magic : ℕ
magic = 0x56434B31

abbrev pub version : ℕ
version = 1

-- `enum class Tag`
abbrev pub tag_hello : ℕ
tag_hello = 0x01

abbrev pub tag_hello_ack : ℕ
tag_hello_ack = 0x02

abbrev pub tag_frame : ℕ
tag_frame = 0x03

abbrev pub tag_cursor : ℕ
tag_cursor = 0x05

abbrev pub tag_bye : ℕ
tag_bye = 0xFF

-- `FrameMode::Auto`
abbrev pub mode_auto : ℕ
mode_auto = 0xFFFFFFFF

-- The `sizeof` of each struct.
abbrev pub header_size : ℕ
header_size = 8

abbrev pub hello_size : ℕ
hello_size = 24

abbrev pub frame_size : ℕ
frame_size = 32

abbrev pub cursor_size : ℕ
cursor_size = 28

abbrev pub bye_size : ℕ
bye_size = 12

abbrev ack_size : ℕ
ack_size = 100

-- The bytes of a `uint32_t`.
pub le_bytes : ℕ → List ℕ
le_bytes n = (n % 256) ∷ (n / 256 % 256) ∷ (n / 65536 % 256) ∷ (n / 16777216 % 256) ∷ []

unfoldable pub encode : List ℕ → List ℕ
unfolding le_bytes
encode [] = []
encode (w ∷ ws) = le_bytes w ++ encode ws

-- A byte of a buffer that was cleared before the read.
unfoldable pub byte_at : List ℕ → ℕ → ℕ
byte_at [] i = 0
byte_at (b ∷ bs) zero = b
byte_at (b ∷ bs) (suc i) = byte_at bs i

-- The word at byte `i`.
unfoldable pub word_at : List ℕ → ℕ → ℕ
unfolding byte_at
word_at bs i =
    byte_at bs i
    + 256 * byte_at bs (i + 1)
    + 65536 * byte_at bs (i + 2)
    + 16777216 * byte_at bs (i + 3)

-- A `uint32_t` read as an `int32_t`, and back.
unfoldable pub to_int32 : ℕ → ℤ
to_int32 n = if ltb n (2 ^ 31) then pos n else negsuc (2 ^ 32 - 1 - n)

unfoldable pub of_int32 : ℤ → ℕ
of_int32 (pos n) = n
of_int32 (negsuc n) = 2 ^ 32 - 1 - n

-- The structs that the client sends.
pub data Message : Type 0 where
  hello : (client_version requested_w requested_h requested_fps : ℕ) → Message
  frame : (seq x y w h mode : ℕ) → Message
  cursor : (x y : ℤ) (w h visible : ℕ) → Message
  bye : (reason : ℕ) → Message

unfoldable pub words : Message → List ℕ
unfolding of_int32
words (hello v w h fps) = magic ∷ tag_hello ∷ v ∷ w ∷ h ∷ fps ∷ []
words (frame seq x y w h mode) = magic ∷ tag_frame ∷ seq ∷ x ∷ y ∷ w ∷ h ∷ mode ∷ []
words (cursor x y w h visible) = magic ∷ tag_cursor ∷ of_int32 x ∷ of_int32 y ∷ w ∷ h ∷ visible ∷ []
words (bye reason) = magic ∷ tag_bye ∷ reason ∷ []

-- `HelloAckS2C`
pub record Ack : Type 0 where
  pub accepted : ℕ
  pub w : ℕ
  pub h : ℕ
  pub stride : ℕ
  pub bpp : ℕ
  pub format : ℕ
  pub shm_name_len : ℕ
  pub shm_name : List ℕ

-- `memset` of the 64 bytes, and `memcpy` of the name.
unfoldable pub padded_name : List ℕ → List ℕ
padded_name name = take 64 (name ++ replicate 64 0)

unfoldable pub ack_bytes : Ack → List ℕ
unfolding encode padded_name
ack_bytes a =
    encode (
      magic ∷ tag_hello_ack ∷ a.accepted ∷ a.w ∷ a.h ∷ a.stride ∷ a.bpp ∷ a.format ∷ a.shm_name_len
      ∷ [])
    ++ padded_name a.shm_name
