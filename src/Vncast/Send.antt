-- ===== src/Vncast/Send.antt =====
-- What `ClientConnection` sends: `send_all`, `send_partial_update`, `send_complete_update`,
-- `send_cursor_pos` and `classify_frame_mode` of src/rmioc/vncast_client.cpp. The answers of
-- `::send` are arguments.
pub mod Chunks
pub mod Updates
use rmcast.Base.{
  ℕ, ◌+◌, ◌-◌, ◌*◌, ◌%◌, ◌^◌, List, [], ◌∷◌, ◌++◌, Option, none, some, Bool, true, false, not, ◌&&◌,
  ◌||◌, if◌then◌else◌, ◌==◌, take, drop,
}
use rmcast.Base.Int.{ℤ, pos, ◌*ℤ◌, leb_ℤ, ltb_ℤ, eq_ℤ}
use rmcast.Protocol.{Message, frame, cursor, bye, words, encode, of_int32}
use rmcast.Vncast.{Connection}
use rmcast.Vncast.Convert.{blit_rect_to_shm}

-- One answer of `::send`: the bytes that it took, `EINTR`, or another error.
pub data Answer : Type 0 where
  wrote : ℕ → Answer
  interrupted failed : Answer

-- The buffer was sent, an exception was thrown, or the answers ran out. `out` holds what has gone
-- out on the socket.
pub data Sending : Type 0 where
  sent threw waiting : (out : List ℕ) → Sending

pub send_all : List Answer → List ℕ → List ℕ → Sending
send_all answers [] out = sent out
send_all [] (b ∷ buf) out = waiting out
send_all (wrote n ∷ answers) (b ∷ buf) out =
    send_all answers (drop n (b ∷ buf)) (out ++ take n (b ∷ buf))
send_all (interrupted ∷ answers) (b ∷ buf) out = send_all answers (b ∷ buf) out
send_all (failed ∷ answers) (b ∷ buf) out = threw out

-- `FrameMode`
abbrev pub mode_mono : ℕ
mode_mono = 1

abbrev pub mode_animation : ℕ
mode_animation = 2

abbrev pub mode_content : ℕ
mode_content = 3

-- The `int` products are exact as long as a hundred times the area is an `int`, as it is for every
-- rectangle of a panel of up to 21 million pixels.
pub classify_frame_mode : Connection → ℤ → ℤ → ℕ
classify_frame_mode c w h =
    let area = w *ℤ h in
    let total = pos c.w *ℤ pos c.h in
    if leb_ℤ total (pos 0)
    then mode_animation
    else if ltb_ℤ (area *ℤ pos 100) total
    then mode_animation
    else if ltb_ℤ (area *ℤ pos 100) (total *ℤ pos 40)
    then mode_mono
    else mode_content

-- The `Frame` that `send_partial_update` sends.
pub frame_of : Connection → ℤ → ℤ → ℤ → ℤ → Message
unfolding classify_frame_mode
frame_of c x y w h =
    frame ((c.seq + 1) % 2 ^ 32) (of_int32 x) (of_int32 y) (of_int32 w) (of_int32 h)
      (classify_frame_mode c w h)

-- `send_all` of the frame succeeds; `none` is an access outside of a buffer.
pub send_partial_update : Connection → ℤ → ℤ → ℤ → ℤ → Option Connection
unfolding frame_of
send_partial_update c x y w h = elim (blit_rect_to_shm c x y w h) [
  | none ↦ none
  | some shm ↦ some (record c {
    shm = shm;
    seq = (c.seq + 1) % 2 ^ 32;
    sent = c.sent ++ encode (words (frame_of c x y w h));
  })
]

pub send_complete_update : Connection → Option Connection
unfolding send_partial_update
send_complete_update c = send_partial_update c (pos 0) (pos 0) (pos c.w) (pos c.h)

pub is_same_cursor : Connection → ℤ → ℤ → ℤ → ℤ → Bool → Bool
is_same_cursor c x y w h visible =
    eq_ℤ x c.cursor_x
    && eq_ℤ y c.cursor_y
    && (of_int32 w == c.cursor_w)
    && (of_int32 h == c.cursor_h)
    && (if visible then c.cursor_visible else not c.cursor_visible)

pub cursor_message : ℤ → ℤ → ℤ → ℤ → Bool → Message
cursor_message x y w h visible = cursor x y (of_int32 w) (of_int32 h) (if visible then 1 else 0)

-- `taken` is the number of bytes that the non-blocking `::send` takes, 0 for an error.
pub send_cursor_pos : Connection → ℤ → ℤ → ℤ → ℤ → Bool → ℕ → Connection
unfolding is_same_cursor cursor_message
send_cursor_pos c x y w h visible taken = if is_same_cursor c x y w h visible then c else record c {
  cursor_x = x;
  cursor_y = y;
  cursor_w = of_int32 w;
  cursor_h = of_int32 h;
  cursor_visible = visible;
  sent = c.sent ++ take taken (encode (words (cursor_message x y w h visible)));
}
