-- ===== src/Server/Stream/Total.antt =====
-- The loop of `onSocketReadyRead` ends.
use rmcast.Base.{
  ℕ, zero, suc, ◌-◌, ◌<◌, ◌≤◌, ◌≡◌, refl, List, [], ◌∷◌, some, Bool, true, false, arith, ap, length,
  drop, inl, inr, Bool-cases, ltb, ◌==◌,
}
use rmcast.Base.Int.{ℤ}
use rmcast.Protocol.{
  magic, tag_hello, tag_frame, tag_cursor, tag_bye, header_size, hello_size, frame_size,
  cursor_size, bye_size, word_at,
}
use rmcast.Server.{
  Server, inbox, emit, on_socket, consume, close_socket, handle_hello, reset_session, show_frame,
  note_mode, handle_frame, handle_cursor, read_hello, read_frame, read_cursor, read_bye,
  read_message, read_loop, on_socket_ready_read,
}

length-drop : (n : ℕ) (xs : List ℕ) → length (drop n xs) ≡ length xs - n
length-drop zero xs = omega arith
length-drop (suc n) [] = omega arith
length-drop (suc n) (x ∷ xs) = omega (arith, length-drop n xs)

drop-nil : (n : ℕ) → drop {A = ℕ} n [] ≡ []
drop-nil zero = refl
drop-nil (suc n) = refl

inbox-consume : (n : ℕ) (s : Server) → inbox (consume n s) ≡ drop n (inbox s)
unfolding inbox consume on_socket
inbox-consume n s = ground (arith, drop-nil n)

inbox-handle_hello : (s : Server) (v fps : ℕ) → inbox (handle_hello s v fps) ≡ inbox s
unfolding inbox handle_hello reset_session emit on_socket close_socket
inbox-handle_hello s v fps = ground arith

socket-show_frame :
    (s : Server) (seq x y w h mode : ℕ) → (show_frame s seq x y w h mode).socket ≡ s.socket
unfolding show_frame note_mode emit
socket-show_frame s seq x y w h mode = ground arith

socket-handle_frame :
    (now : ℕ) (s : Server) (seq x y w h mode : ℕ)
    → (handle_frame now s seq x y w h mode).socket ≡ s.socket
unfolding handle_frame
socket-handle_frame now s seq x y w h mode = ground (
  arith,
  socket-show_frame s seq x y w h mode,
  socket-show_frame (record s { last_emit_ms = now }) seq x y w h mode,
)

socket-handle_cursor :
    (s : Server) (x y w h : ℤ) (visible : Bool)
    → (handle_cursor s x y w h visible).socket ≡ s.socket
unfolding handle_cursor emit
socket-handle_cursor s x y w h visible = ground arith

inbox_of_socket : (s t : Server) → t.socket ≡ s.socket → inbox t ≡ inbox s
unfolding inbox
inbox_of_socket s t e = rw e

inbox-close_socket : (s : Server) → inbox (close_socket s) ≡ inbox s
unfolding inbox close_socket on_socket
inbox-close_socket s = ground arith

-- A round that goes on has taken a message out of the buffer.
Shrinks : Server → Server × Bool → Type 0
Shrinks s (t, goes_on) = goes_on ≡ true → length (inbox t) < length (inbox s)

shorter :
    (n : ℕ) (s t : Server)
    → 0 < n
    → n ≤ length (inbox s)
    → inbox t ≡ inbox (consume n s)
    → length (inbox t) < length (inbox s)
shorter n s t pos_n enough e =
    omega (arith, ap length e, ap length (inbox-consume n s), length-drop n (inbox s))

not_short : (m n : ℕ) → ltb m n ≡ false → n ≤ m
not_short m n h = ground arith

read_hello-Shrinks : (s : Server) → Shrinks s (read_hello s (inbox s))
unfolding Shrinks read_hello
read_hello-Shrinks s = elim (Bool-cases (ltb (length (inbox s)) hello_size)) [
  | inl e ↦ rw e (λ h. cc)
  | inr e ↦
      rw e (λ _.
        shorter 24 s _ (omega arith) (not_short _ _ e) (inbox-handle_hello (consume 24 s) _ _))
]

read_frame-Shrinks : (now : ℕ) (s : Server) → Shrinks s (read_frame now s (inbox s))
unfolding Shrinks read_frame
read_frame-Shrinks now s = elim (Bool-cases (ltb (length (inbox s)) frame_size)) [
  | inl e ↦ rw e (λ h. cc)
  | inr e ↦ rw e (λ _.
      shorter 32 s
        (handle_frame now (consume 32 s) (word_at (inbox s) 8) (word_at (inbox s) 12)
          (word_at (inbox s) 16) (word_at (inbox s) 20) (word_at (inbox s) 24)
          (word_at (inbox s) 28))
        (omega arith) (not_short _ _ e)
        (framed (word_at (inbox s) 8) (word_at (inbox s) 12) (word_at (inbox s) 16)
          (word_at (inbox s) 20) (word_at (inbox s) 24) (word_at (inbox s) 28)))
]
  where
    framed :
        (seq x y w h mode : ℕ)
        → inbox (handle_frame now (consume 32 s) seq x y w h mode) ≡ inbox (consume 32 s)
    framed seq x y w h mode =
        inbox_of_socket (consume 32 s) (handle_frame now (consume 32 s) seq x y w h mode)
          (socket-handle_frame now (consume 32 s) seq x y w h mode)

read_cursor-Shrinks : (s : Server) → Shrinks s (read_cursor s (inbox s))
unfolding Shrinks read_cursor
read_cursor-Shrinks s = elim (Bool-cases (ltb (length (inbox s)) cursor_size)) [
  | inl e ↦ rw e (λ h. cc)
  | inr e ↦ rw e (λ _.
      shorter 28 s _ (omega arith) (not_short _ _ e)
        (inbox_of_socket (consume 28 s) _ (socket-handle_cursor (consume 28 s) _ _ _ _ _)))
]

read_bye-Shrinks : (s : Server) → Shrinks s (read_bye s (inbox s))
unfolding Shrinks read_bye
read_bye-Shrinks s = elim (Bool-cases (ltb (length (inbox s)) bye_size)) [
  | inl e ↦ rw e (λ h. cc)
  | inr e ↦ rw e (λ h. cc)
]

read_message-Shrinks : (now : ℕ) (s : Server) → Shrinks s (read_message now s (inbox s))
unfolding Shrinks read_message
read_message-Shrinks now s = elim (Bool-cases (word_at (inbox s) 0 == magic)) [
  | inr e ↦ rw e (λ h. cc)
  | inl e ↦ elim (Bool-cases (word_at (inbox s) 4 == tag_hello)) [
    | inl f ↦ rw (e, f) (read_hello-Shrinks s)
    | inr f ↦ elim (Bool-cases (word_at (inbox s) 4 == tag_frame)) [
      | inl g ↦ rw (e, f, g) (read_frame-Shrinks now s)
      | inr g ↦ elim (Bool-cases (word_at (inbox s) 4 == tag_cursor)) [
        | inl h ↦ rw (e, f, g, h) (read_cursor-Shrinks s)
        | inr h ↦ elim (Bool-cases (word_at (inbox s) 4 == tag_bye)) [
          | inl i ↦ rw (e, f, g, h, i) (read_bye-Shrinks s)
          | inr i ↦ rw (e, f, g, h, i) (λ j. cc)
        ]
      ]
    ]
  ]
]

-- With more fuel than bytes the loop comes to an end.
read_loop_total :
    (fuel now : ℕ) (s : Server)
    → length (inbox s) < fuel
    → (t : Server) × (read_loop fuel now s ≡ some t)
unfolding read_loop Shrinks
read_loop_total zero now s h = absurd (omega arith)
read_loop_total (suc fuel) now s h = elim (Bool-cases (ltb (length (inbox s)) header_size)) [
  | inl e ↦ (s, rw e)
  | inr e ↦ elim (Bool-cases (read_message now s (inbox s)).1) [
    | inr f ↦ ((read_message now s (inbox s)).0, rw (e, f))
    | inl f ↦
        let less = read_message-Shrinks now s f in
        let (t, run) = read_loop_total fuel now (read_message now s (inbox s)).0 (omega arith) in
        (t, rw (e, f) run)
  ]
]

-- `onSocketReadyRead` ends for whatever bytes have come in.
pub on_socket_ready_read_total :
    (now : ℕ) (s : Server) → (t : Server) × (on_socket_ready_read now s ≡ some t)
unfolding on_socket_ready_read
on_socket_ready_read_total now s = read_loop_total (suc (length (inbox s))) now s (omega arith)
