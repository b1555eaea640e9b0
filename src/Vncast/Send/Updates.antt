-- ===== src/Vncast/Send/Updates.antt =====
-- The updates and cursor positions that the client sends, and what the server makes of them.
use rmcast.Base.{
  ℕ, ◌+◌, ◌*◌, ◌%◌, ◌^◌, ◌<◌, ◌≤◌, ◌≡◌, ◌⊎◌, inl, inr, refl, ap, List, ◌++◌, some, Bool, true,
  false, not, ◌&&◌, if◌then◌else◌, ◌==◌, arith, ◌∙◌, Bool-cases,
}
use rmcast.Base.Int.{ℤ, pos, ◌*ℤ◌, eq_ℤ, leb_ℤ-cases, ltb_ℤ-cases, eq_ℤ-cases}
use rmcast.Protocol.{frame, encode, words, of_int32, to_int32}
use rmcast.Protocol.Codec.{to_int32-of_int32}
use rmcast.Server.{Server, Socket, handle_frame, read_message}
use rmcast.Server.Stream.Messages.{
  InRange, IsInt32, with_inbox, handled, read_message-encode, of_int32-IsWord,
}
use rmcast.Vncast.{Connection}
use rmcast.Vncast.Convert.Bounds.{IsSized}
use rmcast.Vncast.Convert.Correct.{InView, Converted, blit_rect_to_shm-Converted}
use rmcast.Vncast.Send.{
  mode_animation, mode_mono, mode_content, classify_frame_mode, frame_of, send_partial_update,
  send_complete_update, is_same_cursor, send_cursor_pos,
}

mul_pos : (a b : ℕ) → pos a *ℤ pos b ≡ pos (a * b)
unfolding ◌*ℤ◌
mul_pos a b = ground arith

-- On a panel that has pixels, an update of less than a hundredth of it is an animation, one of at
-- least 40 hundredths is content, and what lies between is mono.
pub classify_frame_mode_bands :
    (c : Connection) (w h : ℕ)
    → 0 < c.w * c.h
    → ((classify_frame_mode c (pos w) (pos h) ≡ mode_animation) × (w * h * 100 < c.w * c.h))
      ⊎ ((classify_frame_mode c (pos w) (pos h) ≡ mode_mono)
          × (c.w * c.h ≤ w * h * 100)
          × (w * h * 100 < c.w * c.h * 40))
      ⊎ ((classify_frame_mode c (pos w) (pos h) ≡ mode_content) × (c.w * c.h * 40 ≤ w * h * 100))
unfolding classify_frame_mode
classify_frame_mode_bands c w h some_panel =
    rw
      (
        classify_frame_mode,
        mul_pos w h,
        mul_pos c.w c.h,
        mul_pos (w * h) 100,
        mul_pos (c.w * c.h) 40,
      )
      (elim (leb_ℤ-cases (pos (c.w * c.h)) (pos 0)) [
        | inl (e, le) ↦ absurd (omega arith)
        | inr (e, lt) ↦ elim (ltb_ℤ-cases (pos (w * h * 100)) (pos (c.w * c.h))) [
          | inl (f, small) ↦ inl (rw (e, f) refl, omega arith)
          | inr (f, ge) ↦ elim (ltb_ℤ-cases (pos (w * h * 100)) (pos (c.w * c.h * 40))) [
            | inl (g, mid) ↦ inr (inl (rw (e, f, g) refl, omega arith, omega arith))
            | inr (g, big) ↦ inr (inr (rw (e, f, g) refl, omega arith))
          ]
        ]
      ])

-- Where the buffers have the sizes that the handshake gives them, a partial update does not
-- fault: it converts the rectangle into the shared memory, counts up the sequence number and
-- sends one frame message after what was sent before.
pub send_partial_update-Converted :
    (c : Connection) (x y w h : ℤ)
    → IsSized c
    → (shm : List ℕ) × (send_partial_update c x y w h
        ≡ some (record c {
          shm = shm;
          seq = (c.seq + 1) % 2 ^ 32;
          sent = c.sent ++ encode (words (frame_of c x y w h));
        }))
      × Converted c (InView c x y w h) shm
unfolding send_partial_update
send_partial_update-Converted c x y w h sized =
    let (shm, run, done) = blit_rect_to_shm-Converted c x y w h sized in
    (shm, rw (run, send_partial_update) refl, done)

mode_is_small : (c : Connection) (w h : ℤ) → classify_frame_mode c w h < 2 ^ 32
unfolding classify_frame_mode
mode_is_small c w h = ground arith

frame_of-InRange :
    (c : Connection) (x y w h : ℤ)
    → IsInt32 x
    → IsInt32 y
    → IsInt32 w
    → IsInt32 h
    → InRange (frame_of c x y w h)
unfolding frame_of
frame_of-InRange c x y w h a b d e = (
  omega arith,
  of_int32-IsWord x a,
  of_int32-IsWord y b,
  of_int32-IsWord w d,
  of_int32-IsWord h e,
  mode_is_small c w h,
)

-- For a rectangle of 32-bit integers, the frame message of an update reaches the server's handler
-- with the sequence number, the rectangle and the mode that the client put in, whatever follows
-- it on the socket, and the words of the rectangle read as signed integers are the client's
-- again.
pub sent_frame_arrives :
    (c : Connection) (x y w h : ℤ) (now : ℕ) (s : Server) (k : Socket) (rest : List ℕ)
    → IsInt32 x
    → IsInt32 y
    → IsInt32 w
    → IsInt32 h
    → let bytes = encode (words (frame_of c x y w h)) ++ rest in
      (read_message now (with_inbox s k bytes) bytes ≡ (
        handle_frame now
            (with_inbox s k rest)
            ((c.seq + 1) % 2 ^ 32)
            (of_int32 x)
            (of_int32 y)
            (of_int32 w)
            (of_int32 h)
            (classify_frame_mode c w h),
        true,
      ))
      × (to_int32 (of_int32 x) ≡ x)
      × (to_int32 (of_int32 y) ≡ y)
      × (to_int32 (of_int32 w) ≡ w)
      × (to_int32 (of_int32 h) ≡ h)
unfolding frame_of handled
sent_frame_arrives c x y w h now s k rest a b d e = (
  read_message-encode (frame_of c x y w h) now s k rest (frame_of-InRange c x y w h a b d e),
  to_int32-of_int32 x a.0 a.1,
  to_int32-of_int32 y b.0 b.1,
  to_int32-of_int32 w d.0 d.1,
  to_int32-of_int32 h e.0 e.1,
)

eq_ℤ_self : (a : ℤ) → eq_ℤ a a ≡ true
eq_ℤ_self a = ground (arith, eq_ℤ-cases a a)

eq_self : (n : ℕ) → (n == n) ≡ true
eq_self n = ground arith

same_cursor_after :
    (c : Connection) (x y w h : ℤ) (visible : Bool) (taken : ℕ)
    → is_same_cursor (send_cursor_pos c x y w h visible taken) x y w h visible ≡ true
unfolding send_cursor_pos
same_cursor_after c x y w h visible taken = elim (Bool-cases (is_same_cursor c x y w h visible)) [
  | inl e ↦ rw e e
  | inr e ↦ rw e (is_same visible)
]
  where
    is_same :
        (v : Bool)
        → (eq_ℤ x x
            && eq_ℤ y y
            && (of_int32 w == of_int32 w)
            && (of_int32 h == of_int32 h)
            && (if v then v else not v))
          ≡ true
    is_same true = rw (eq_ℤ_self x, eq_ℤ_self y, eq_self (of_int32 w), eq_self (of_int32 h))
    is_same false = rw (eq_ℤ_self x, eq_ℤ_self y, eq_self (of_int32 w), eq_self (of_int32 h))

-- A cursor position that is given a second time sends nothing and changes nothing, even where the
-- socket had taken only a part of the first message or none of it.
pub send_cursor_pos_again :
    (c : Connection) (x y w h : ℤ) (visible : Bool) (taken taken' : ℕ)
    → let once = send_cursor_pos c x y w h visible taken in
      send_cursor_pos once x y w h visible taken' ≡ once
unfolding send_cursor_pos
send_cursor_pos_again c x y w h visible taken taken' =
    rw (same_cursor_after c x y w h visible taken, send_cursor_pos) refl

-- Where the buffers have the sizes that the handshake gives them and the panel has pixels, a
-- complete update converts the whole panel and sends one frame message for it with the mode for
-- content.
pub send_complete_update_lem :
    (c : Connection)
    → IsSized c
    → 0 < c.w * c.h
    → (shm : List ℕ) × (send_complete_update c
        ≡ some (record c {
          shm = shm;
          seq = (c.seq + 1) % 2 ^ 32;
          sent = c.sent ++ encode (words (frame ((c.seq + 1) % 2 ^ 32) 0 0 c.w c.h mode_content));
        }))
      × Converted c (InView c (pos 0) (pos 0) (pos c.w) (pos c.h)) shm
unfolding send_complete_update frame_of of_int32
send_complete_update_lem c sized some_panel =
    let (shm, run, done) =
      send_partial_update-Converted c (pos 0) (pos 0) (pos c.w) (pos c.h) sized in
    (
      shm,
      run
          ∙ ap
              (λ (mode : ℕ). some (record c {
                shm = shm;
                seq = (c.seq + 1) % 2 ^ 32;
                sent = c.sent ++ encode (words (frame ((c.seq + 1) % 2 ^ 32) 0 0 c.w c.h mode));
              }))
              whole,
      done,
    )
  where
    whole : classify_frame_mode c (pos c.w) (pos c.h) ≡ mode_content
    whole = elim (classify_frame_mode_bands c c.w c.h some_panel) [
      | inl (e, small) ↦ absurd (omega arith)
      | inr (inl (e, ge, lt)) ↦ absurd (omega arith)
      | inr (inr (e, ge)) ↦ e
    ]
