-- ===== src/Server/Shown.antt =====
-- What a frame message leads to (`handleFrame` of middleware/extension/src/qtfb/server.cpp).
use rmcast.Base.{
  ℕ, ◌+◌, ◌≡◌, ◌⊎◌, inl, inr, refl, sym, ap, ◌∙◌, List, [], ◌∷◌, ◌++◌, Bool, true, false, not, ◌&&◌,
  ltb, ◌==◌, arith, Bool-cases, ==_iff,
}
use rmcast.Base.Int.{ℤ}
use rmcast.Protocol.{to_int32}
use rmcast.Server.{
  Server, Signal, frame_ready, last_frame_mode_changed, cursor_changed, client_connected,
  client_disconnected, emit, note_mode, show_frame, is_capped, too_soon, handle_frame,
}

-- A frame message and the time at which it is handled.
pub record Arrival : Type 0 where
  pub now : ℕ
  pub seq : ℕ
  pub x : ℕ
  pub y : ℕ
  pub w : ℕ
  pub h : ℕ
  pub mode : ℕ

unfoldable pub step : Server → Arrival → Server
unfolding handle_frame
step s a = handle_frame a.now s a.seq a.x a.y a.w a.h a.mode

-- The message gets past the cap.
unfoldable pub is_shown : Server → Arrival → Bool
is_shown s a = not (is_capped s a.w a.h && too_soon a.now s)

abbrev pub Signalled : List Signal → ℕ → ℤ → ℤ → ℤ → ℤ → List Signal → Type 0
Signalled old seq x y w h new =
    (before : List Signal) × ((before ≡ old) ⊎ (before ≡ old ++ last_frame_mode_changed ∷ []))
    × (new ≡ before ++ frame_ready seq x y w h ∷ [])

show_frame-Signalled :
    (s : Server) (seq x y w h mode : ℕ)
    → ((show_frame s seq x y w h mode).last_frame_mode ≡ mode)
      × Signalled s.signals seq
          (to_int32 x)
          (to_int32 y)
          (to_int32 w)
          (to_int32 h)
          (show_frame s seq x y w h mode).signals
unfolding show_frame note_mode emit
show_frame-Signalled s seq x y w h mode = elim (Bool-cases (mode == s.last_frame_mode)) [
  | inl e ↦ rw e (sym ((==_iff mode s.last_frame_mode).0 e), (s.signals, inl refl, refl))
  | inr e ↦ rw e (refl, (s.signals ++ last_frame_mode_changed ∷ [], inr refl, refl))
]

-- A message that is held back changes nothing. Any other is followed by exactly one repaint signal,
-- with its sequence number and rectangle, behind at most the signal for a changed mode, and the
-- mode that the server shows is the message's.
pub step-shown :
    (s : Server) (a : Arrival)
    → ((is_shown s a ≡ false) × (step s a ≡ s))
      ⊎ ((is_shown s a ≡ true)
          × ((step s a).last_frame_mode ≡ a.mode)
          × Signalled s.signals a.seq
              (to_int32 a.x)
              (to_int32 a.y)
              (to_int32 a.w)
              (to_int32 a.h)
              (step s a).signals)
unfolding is_shown step handle_frame
step-shown s a = elim (Bool-cases (is_capped s a.w a.h)) [
  | inr free ↦ rw free (
      inr (
        let (mode, signals) = show_frame-Signalled s a.seq a.x a.y a.w a.h a.mode in
        (refl, mode, signals)))
  | inl limited ↦ elim (Bool-cases (too_soon a.now s)) [
    | inl soon ↦ rw (limited, soon) (inl (refl, refl))
    | inr late ↦
        rw (limited, late)
          (inr (
            let (mode, signals) =
              show_frame-Signalled (record s { last_emit_ms = a.now }) a.seq a.x a.y a.w a.h
                a.mode in
            (refl, mode, signals)))
  ]
]

-- The number of repaint signals.
pub frames : List Signal → ℕ
frames [] = 0
frames (frame_ready seq x y w h ∷ xs) = 1 + frames xs
frames (last_frame_mode_changed ∷ xs) = frames xs
frames (cursor_changed ∷ xs) = frames xs
frames (client_connected ∷ xs) = frames xs
frames (client_disconnected ∷ xs) = frames xs

frames-append : (xs ys : List Signal) → frames (xs ++ ys) ≡ frames xs + frames ys
unfolding frames
frames-append [] ys = omega arith
frames-append (frame_ready seq x y w h ∷ xs) ys = omega (arith, frames-append xs ys)
frames-append (last_frame_mode_changed ∷ xs) ys = frames-append xs ys
frames-append (cursor_changed ∷ xs) ys = frames-append xs ys
frames-append (client_connected ∷ xs) ys = frames-append xs ys
frames-append (client_disconnected ∷ xs) ys = frames-append xs ys

one_more :
    (old new : List Signal) (seq : ℕ) (x y w h : ℤ)
    → Signalled old seq x y w h new
    → frames new ≡ frames old + 1
unfolding frames
one_more old new seq x y w h (before, inl same, e) =
    ap frames (e ∙ ap (λ (xs : List Signal). xs ++ frame_ready seq x y w h ∷ []) same)
    ∙ frames-append old _
one_more old new seq x y w h (before, inr more, e) =
    ap frames (e ∙ ap (λ (xs : List Signal). xs ++ frame_ready seq x y w h ∷ []) more)
    ∙ frames-append (old ++ last_frame_mode_changed ∷ []) _
    ∙ ap (λ n. n + 1) (frames-append old (last_frame_mode_changed ∷ []) ∙ plain (frames old))
  where
    plain : (n : ℕ) → n + 0 ≡ n
    plain n = omega arith

-- A message is shown if the server emits a repaint signal for it.
pub signals_frame : Server → Arrival → Bool
unfolding step
signals_frame s a = ltb (frames s.signals) (frames (step s a).signals)

pub signals_frame_lem : (s : Server) (a : Arrival) → signals_frame s a ≡ is_shown s a
unfolding signals_frame
signals_frame_lem s a = elim (step-shown s a) [
  | inl (held, still) ↦
      same (frames s.signals) _ (ap (λ (t : Server). frames t.signals) still) ∙ sym held
  | inr (shown, mode, signals) ↦
      more (frames s.signals) _ (one_more _ _ _ _ _ _ _ signals) ∙ sym shown
]
  where
    same : (m n : ℕ) → n ≡ m → ltb m n ≡ false
    same m n e = ground arith

    more : (m n : ℕ) → n ≡ m + 1 → ltb m n ≡ true
    more m n e = ground arith

-- The first message that finds no earlier frame is shown.
pub first_is_shown : (s : Server) (a : Arrival) → s.last_emit_ms ≡ 0 → is_shown s a ≡ true
unfolding is_shown too_soon
first_is_shown s a e = ground (arith, e)
