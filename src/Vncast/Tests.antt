-- ===== src/Vncast/Tests.antt =====
-- The theorems on the client's connection applied to a panel of two pixels.
use rmcast.Base.{
  replicate, length-replicate, ℕ, ◌*◌, ◌≤◌, ◌≡◌, inr, refl, List, [], ◌∷◌, Option, none, some, true,
  false, arith,
}
use rmcast.Base.Int.{pos, negsuc}
use rmcast.Protocol.{version, ack_bytes}
use rmcast.Server.{Server, Socket, ack_of}
use rmcast.Vncast.{Connection}
use rmcast.Vncast.Pixel.{pixel_size}
use rmcast.Vncast.Convert.{blit_rect_to_shm}
use rmcast.Vncast.Convert.Bounds.{IsSized}
use rmcast.Vncast.Convert.Correct.{InView, Converted, blit_rect_to_shm-Converted}
use rmcast.Vncast.Send.{Answer, wrote, interrupted, sent, send_all}
use rmcast.Vncast.Send.Chunks.{IsClean, progress, send_all_total}
use rmcast.Vncast.Handshake.{Settings, handshake}
use rmcast.Vncast.Handshake.Agreement.{IsOffered, handshake-IsSized}
use rmcast.Vncast.Handshake.Detected.{handshake_on_detected}
use rmcast.Detect.{detect, set_geometry}

abbrev two_pixels : Connection
two_pixels = record {
  w = 2;
  h = 1;
  stride = 8;
  bpp = 32;
  format = 1;
  seq = 0;
  shm_name = [];
  shm = 0 ∷ 0 ∷ 0 ∷ 0 ∷ 0 ∷ 0 ∷ 0 ∷ 0 ∷ [];
  shadow = 255 ∷ 255 ∷ 0 ∷ 248 ∷ [];
  force_grayscale = false;
  cursor_x = negsuc 0;
  cursor_y = negsuc 0;
  cursor_w = 0;
  cursor_h = 0;
  cursor_visible = false;
  sent = [];
}

two_pixels-IsSized : IsSized two_pixels
unfolding pixel_size
two_pixels-IsSized = record {
  source = refl;
  target = refl;
  rows = omega arith;
  known = omega arith;
}

blit_rect_to_shm-Converted_example :
    (dst : List ℕ) × (blit_rect_to_shm two_pixels (negsuc 0) (pos 0) (pos 2) (pos 5) ≡ some dst)
    × Converted two_pixels (InView two_pixels (negsuc 0) (pos 0) (pos 2) (pos 5)) dst
blit_rect_to_shm-Converted_example =
    blit_rect_to_shm-Converted two_pixels (negsuc 0) (pos 0) (pos 2) (pos 5) two_pixels-IsSized

abbrev answers : List Answer
answers = wrote 1 ∷ interrupted ∷ wrote 5 ∷ []

answers-IsClean : IsClean answers
unfolding IsClean
answers-IsClean = tt

answers-progress : 2 ≤ progress answers
unfolding progress
answers-progress = omega arith

send_all_total_example : send_all answers (7 ∷ 8 ∷ []) (4 ∷ []) ≡ sent (4 ∷ 7 ∷ 8 ∷ [])
send_all_total_example =
    send_all_total answers (7 ∷ 8 ∷ []) (4 ∷ []) answers-IsClean answers-progress

abbrev other_end : Server
other_end = record {
  w = 2;
  h = 1;
  stride = 8;
  bpp = 32;
  format = 1;
  shm_name = 47 ∷ 118 ∷ [];
  fps_cap = 0;
  min_period_ms = 0;
  last_emit_ms = 0;
  last_frame_mode = 4;
  cursor_x = negsuc 0;
  cursor_y = negsuc 0;
  cursor_w = pos 0;
  cursor_h = pos 0;
  cursor_visible = false;
  socket = none;
  signals = [];
}

abbrev line : Socket
line = record { inbox = []; outbox = []; is_closing = false }

abbrev settings : Settings
settings = record { fps = some (pos 30); waveform = some "A2"; grayscale = none }

abbrev open_zeroed : List ℕ → ℕ → Option (List ℕ)
open_zeroed name size = some (0 ∷ 0 ∷ 0 ∷ 0 ∷ 0 ∷ 0 ∷ 0 ∷ 0 ∷ [])

other_end-IsOffered : IsOffered other_end
unfolding pixel_size
other_end-IsOffered = record {
  w_word = omega arith;
  h_word = omega arith;
  stride_word = omega arith;
  bpp_word = omega arith;
  bytes_word = omega arith;
  known_format = omega arith;
  rows = omega arith;
  short_name = omega arith;
}

handshake-IsSized_example :
    (c : Connection) × (handshake settings open_zeroed (ack_bytes (ack_of other_end version))
      ≡ inr c)
    × (c.w ≡ 2)
    × (c.h ≡ 1)
    × (c.stride ≡ 8)
    × (c.bpp ≡ 32)
    × (c.format ≡ 1)
    × (c.shm_name ≡ 47 ∷ 118 ∷ [])
    × (c.shm ≡ 0 ∷ 0 ∷ 0 ∷ 0 ∷ 0 ∷ 0 ∷ 0 ∷ 0 ∷ [])
    × IsSized c
handshake-IsSized_example =
    handshake-IsSized settings other_end open_zeroed (0 ∷ 0 ∷ 0 ∷ 0 ∷ 0 ∷ 0 ∷ 0 ∷ 0 ∷ [])
      other_end-IsOffered refl refl

handshake_on_detected_example :
    let s = set_geometry true (detect (λ name part. false) "an old phone") other_end in
    (c : Connection) × (handshake settings
        (λ name size. some (replicate size 255))
        (ack_bytes (ack_of s version))
      ≡ inr c)
    × (c.w ≡ s.w)
    × (c.h ≡ s.h)
    × IsSized c
handshake_on_detected_example =
    let s = set_geometry true (detect (λ name part. false) "an old phone") other_end in
    handshake_on_detected (λ name part. false) "an old phone" true other_end settings
      (λ name size. some (replicate size 255)) (replicate (s.stride * s.h) 255) (omega arith) refl
      (length-replicate (s.stride * s.h) 255)
