-- ===== src/Vncast/Pixel.antt =====
-- The conversion of one RGB565 pixel in `blit_rect_to_shm` of src/rmioc/vncast_client.cpp. Shifts
-- are products and quotients; the two operands of each `|` have no bit in common.
use rmcast.Base.{
  ℕ, ◌+◌, ◌*◌, ◌/◌, ◌%◌, ◌<◌, ◌≤◌, ◌^◌, ◌≡◌, refl, List, [], ◌∷◌, Bool, false, if◌then◌else◌, arith,
  ◌==◌, length, min, max,
}

-- `px`, and its components `r`, `g` and `b`.
unfoldable pub word16 : ℕ → ℕ → ℕ
word16 lo hi = lo + 256 * hi

pub red : ℕ → ℕ
red px = px / 2048 % 32

pub green : ℕ → ℕ
green px = px / 32 % 64

pub blue : ℕ → ℕ
blue px = px % 32

-- `(c << 3) | (c >> 2)` and `(c << 2) | (c >> 4)`, as bytes.
pub expand5 : ℕ → ℕ
expand5 c = (c * 8 + c / 4) % 256

pub expand6 : ℕ → ℕ
expand6 c = (c * 4 + c / 16) % 256

luma : ℕ → ℕ → ℕ → ℕ
luma r8 g8 b8 = (r8 * 30 + g8 * 59 + b8 * 11) / 100 % 256

pub luma_of : ℕ → ℕ
unfolding luma expand5 expand6 red green blue
luma_of px = luma (expand5 (red px)) (expand6 (green px)) (expand5 (blue px))

-- What is written at `dp`, by the format: 0 is Grayscale16, 1 is RGBA8888, 2 is Grayscale8.
pub rgba_bytes : Bool → ℕ → List ℕ
unfolding luma_of expand5 expand6 red green blue
rgba_bytes force_grayscale px =
    if force_grayscale
    then luma_of px ∷ luma_of px ∷ luma_of px ∷ 0xFF ∷ []
    else expand5 (red px) ∷ expand6 (green px) ∷ expand5 (blue px) ∷ 0xFF ∷ []

pub gray16_bytes : ℕ → List ℕ
unfolding luma_of
gray16_bytes px = let y16 = luma_of px * 257 % 2 ^ 16 in (y16 % 256) ∷ (y16 / 256) ∷ []

pub pixel_bytes : ℕ → Bool → ℕ → List ℕ
unfolding rgba_bytes gray16_bytes luma_of
pixel_bytes format force_grayscale px =
    if format == 1
    then rgba_bytes force_grayscale px
    else if format == 2
    then luma_of px ∷ []
    else gray16_bytes px

-- Bytes per pixel of the shared memory.
unfoldable pub pixel_size : ℕ → ℕ
pixel_size format = if format == 1 then 4 else if format == 2 then 1 else 2

pub length-pixel_bytes :
    (format : ℕ) (gray : Bool) (px : ℕ) → length (pixel_bytes format gray px) ≡ pixel_size format
unfolding pixel_bytes pixel_size rgba_bytes gray16_bytes
length-pixel_bytes format gray px = ground arith

-- The colour bytes of a 16-bit pixel, not forced to grey, give it back: their leading 5, 6 and 5
-- bits are its components.
pub rgba_bytes_lossless :
    (px : ℕ)
    → px < 2 ^ 16
    → (r : ℕ) × (g : ℕ) × (b : ℕ) × (rgba_bytes false px ≡ r ∷ g ∷ b ∷ 255 ∷ [])
      × (r / 8 * 2048 + g / 4 * 32 + b / 8 ≡ px)
      × (r < 256)
      × (g < 256)
      × (b < 256)
unfolding rgba_bytes expand5 expand6 red green blue
rgba_bytes_lossless px h = (
  expand5 (red px),
  expand6 (green px),
  expand5 (blue px),
  refl,
  omega arith,
  omega arith,
  omega arith,
  omega arith,
)

-- A grey value lies between the least and the greatest of the colour's bytes, so that black, white
-- and every grey stay what they are; both bytes of the 16-bit format are the grey value.
pub luma_between :
    (px : ℕ)
    → let r = expand5 (red px) in
      let g = expand6 (green px) in
      let b = expand5 (blue px) in
      (min r (min g b) ≤ luma_of px)
      × (luma_of px ≤ max r (max g b))
      × (gray16_bytes px ≡ luma_of px ∷ luma_of px ∷ [])
unfolding luma_of luma expand5 expand6 red green blue gray16_bytes
luma_between px = (omega arith, omega arith, λ i. (low i ∷ high i ∷ []))
  where
    low : luma_of px * 257 % 2 ^ 16 % 256 ≡ luma_of px
    low = omega arith

    high : luma_of px * 257 % 2 ^ 16 / 256 ≡ luma_of px
    high = omega arith
