-- ===== src/Vncast/Handshake/Agreement.antt =====
-- After a handshake the client has the server's geometry, and its buffers fit.
use rmcast.Base.{
  ℕ, zero, suc, ◌+◌, ◌*◌, ◌/◌, ◌%◌, ◌^◌, ◌<◌, ◌≤◌, ◌≡◌, inl, inr, refl, sym, ap, List, [], ◌∷◌,
  ◌++◌, Option, some, ap₂, Bool, true, false, length, replicate, length-replicate, take, min, arith,
  ◌∙◌, subst, if◌then◌else◌, ◌==◌,
}
use rmcast.Protocol.{magic, version, tag_hello_ack, ack_bytes, padded_name, word_at, encode}
use rmcast.Server.{Server, ack_of}
use rmcast.Vncast.{Connection}
use rmcast.Vncast.Pixel.{pixel_size}
use rmcast.Vncast.Convert.Bounds.{IsSized}
use rmcast.Vncast.Handshake.{Settings, rejected, ack_name, connected, handshake}

-- A server whose geometry fits the words of its answer, with room for each row's pixels.
pub record IsOffered (s : Server) : Type 0 where
  pub w_word : s.w < 2 ^ 32
  pub h_word : s.h < 2 ^ 32
  pub stride_word : s.stride < 2 ^ 32
  pub bpp_word : s.bpp < 2 ^ 32
  pub bytes_word : s.stride * s.h < 2 ^ 32
  pub known_format : s.format ≤ 2
  pub rows : s.w * pixel_size s.format ≤ s.stride
  pub short_name : length s.shm_name ≤ 64

take-length : (xs ys : List ℕ) → take (length xs) (xs ++ ys) ≡ xs
take-length [] ys = refl
take-length (x ∷ xs) ys = ap (λ zs. x ∷ zs) (take-length xs ys)

take-take : (m n : ℕ) (xs : List ℕ) → m ≤ n → take m (take n xs) ≡ take m xs
take-take zero n xs h = refl
take-take (suc m) zero xs h = absurd (omega arith)
take-take (suc m) (suc n) [] h = refl
take-take (suc m) (suc n) (x ∷ xs) h = ap (λ zs. x ∷ zs) (take-take m n xs (omega arith))

le_value :
    (n : ℕ)
    → n < 2 ^ 32
    → n % 256 + 256 * (n / 256 % 256) + 65536 * (n / 65536 % 256) + 16777216 * (n / 16777216 % 256)
      ≡ n
le_value n h = omega arith

-- The fields of the server's answer, read back at their offsets.
record Read (s : Server) (ack : List ℕ) : Type 0 where
  pub w : word_at ack 12 ≡ s.w
  pub h : word_at ack 16 ≡ s.h
  pub stride : word_at ack 20 ≡ s.stride
  pub bpp : word_at ack 24 ≡ s.bpp
  pub format : word_at ack 28 ≡ s.format
  pub name : ack_name ack ≡ s.shm_name

ack-Read : (s : Server) (v : ℕ) → IsOffered s → Read s (ack_bytes (ack_of s v))
unfolding ack_bytes encode word_at ack_of ack_name padded_name
ack-Read s v o = record {
  w = le_value s.w o.w_word;
  h = le_value s.h o.h_word;
  stride = le_value s.stride o.stride_word;
  bpp = le_value s.bpp o.bpp_word;
  format = le_value s.format (omega (arith, o.known_format));
  name =
      ap (λ (n : ℕ). take n (take 64 (s.shm_name ++ replicate 64 0))) fits
      ∙ take-take (length s.shm_name) 64 (s.shm_name ++ replicate 64 0) o.short_name
      ∙ take-length s.shm_name (replicate 64 0);
}
  where
    size : ℕ
    size = min (length s.shm_name) 64

    fits :
        min
          (size % 256
            + 256 * (size / 256 % 256)
            + 65536 * (size / 65536 % 256)
            + 16777216 * (size / 16777216 % 256))
          64
        ≡ length s.shm_name
    fits = omega (arith, o.short_name)

handshake_lem :
    (e : Settings) (open_shm : List ℕ → ℕ → Option (List ℕ)) (ack shm : List ℕ)
    → (word_at ack 0 == magic) ≡ true
    → (word_at ack 4 == tag_hello_ack) ≡ true
    → (word_at ack 8 == 0) ≡ false
    → open_shm (ack_name ack) (word_at ack 20 * word_at ack 16 % 2 ^ 32) ≡ some shm
    → handshake e open_shm ack ≡ inr (connected e ack shm)
unfolding handshake
handshake_lem e open_shm ack shm a b c opened = rw (a, b, c, opened, handshake) refl

refused_lem :
    (e : Settings) (open_shm : List ℕ → ℕ → Option (List ℕ)) (ack : List ℕ)
    → (word_at ack 0 == magic) ≡ true
    → (word_at ack 4 == tag_hello_ack) ≡ true
    → (word_at ack 8 == 0) ≡ true
    → handshake e open_shm ack ≡ inl rejected
unfolding handshake
refused_lem e open_shm ack a b c = rw (a, b, c, handshake) refl

connected-IsSized :
    (e : Settings) (s : Server) (ack shm : List ℕ)
    → IsOffered s
    → Read s ack
    → length shm ≡ s.stride * s.h
    → IsSized (connected e ack shm)
unfolding connected
connected-IsSized e s ack shm o r fits = record {
  source = length-replicate (word_at ack 12 * word_at ack 16 * 2) 0;
  target = fits ∙ sym (ap₂ (λ (a b : ℕ). a * b) r.stride r.h);
  rows =
      subst (λ (n : ℕ). n * pixel_size (word_at ack 28) ≤ word_at ack 20) (sym r.w)
        (subst (λ (n : ℕ). s.w * pixel_size n ≤ word_at ack 20) (sym r.format)
          (subst (λ (n : ℕ). s.w * pixel_size s.format ≤ n) (sym r.stride) o.rows));
  known = subst (λ (n : ℕ). n ≤ 2) (sym r.format) o.known_format;
}

-- Where the server's geometry fits the words of its answer, its rows hold their pixels, its name
-- is not longer than 64 bytes, and memory of the right size can be mapped under it: the client
-- that speaks the server's version takes over the server's geometry, format and shared memory
-- from the answer, and its buffers then have the sizes that every later blit needs.
pub handshake-IsSized :
    (e : Settings) (s : Server) (open_shm : List ℕ → ℕ → Option (List ℕ)) (shm : List ℕ)
    → IsOffered s
    → open_shm s.shm_name (s.stride * s.h) ≡ some shm
    → length shm ≡ s.stride * s.h
    → (c : Connection) × (handshake e open_shm (ack_bytes (ack_of s version)) ≡ inr c)
      × (c.w ≡ s.w)
      × (c.h ≡ s.h)
      × (c.stride ≡ s.stride)
      × (c.bpp ≡ s.bpp)
      × (c.format ≡ s.format)
      × (c.shm_name ≡ s.shm_name)
      × (c.shm ≡ shm)
      × IsSized c
unfolding connected ack_bytes encode word_at ack_of
handshake-IsSized e s open_shm shm o opened fits =
    let ack = ack_bytes (ack_of s version) in
    let r = ack-Read s version o in
    (
      connected e ack shm,
      handshake_lem e open_shm ack shm refl refl refl (ap₂ open_shm r.name (size r) ∙ opened),
      r.w,
      r.h,
      r.stride,
      r.bpp,
      r.format,
      r.name,
      refl,
      connected-IsSized e s ack shm o r fits,
    )
  where
    small : (n : ℕ) → n < 2 ^ 32 → n % 2 ^ 32 ≡ n
    small n h = omega arith

    size :
        Read s (ack_bytes (ack_of s version))
        → word_at (ack_bytes (ack_of s version)) 20
            * word_at (ack_bytes (ack_of s version)) 16
            % 2 ^ 32
          ≡ s.stride * s.h
    size r =
        ap (λ (n : ℕ). n % 2 ^ 32) (ap₂ (λ (a b : ℕ). a * b) r.stride r.h)
        ∙ small (s.stride * s.h) o.bytes_word

-- A client of another version is refused by the server, and its handshake ends in the exception for
-- that.
pub handshake-rejected :
    (e : Settings) (s : Server) (open_shm : List ℕ → ℕ → Option (List ℕ)) (v : ℕ)
    → (v == version) ≡ false
    → handshake e open_shm (ack_bytes (ack_of s v)) ≡ inl rejected
unfolding ack_bytes encode word_at ack_of
handshake-rejected e s open_shm v other =
    refused_lem e open_shm (ack_bytes (ack_of s v)) refl refl (
      ap
        (λ (same : Bool).
          let n = if same then 1 else 0 in
          (n % 256
            + 256 * (n / 256 % 256)
            + 65536 * (n / 65536 % 256)
            + 16777216 * (n / 16777216 % 256))
          == 0)
        other)
