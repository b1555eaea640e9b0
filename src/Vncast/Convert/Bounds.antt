-- ===== src/Vncast/Convert/Bounds.antt =====
-- The addresses of `blit_rect_to_shm` lie within its buffers, and those of different pixels apart.
use rmcast.Base.{
  ℕ, zero, suc, ◌+◌, ◌*◌, ◌<◌, ◌≤◌, ◌≡◌, ◌⊎◌, inl, inr, refl, List, [], ◌∷◌, some, length,
  get_elem?, arith, ap,
}
use rmcast.Protocol.{byte_at}
use rmcast.Vncast.{Connection}
use rmcast.Vncast.Pixel.{word16, pixel_bytes, pixel_size, length-pixel_bytes}
use rmcast.Vncast.Convert.{read_pixel, src_address, dst_address, convert_pixel}
use rmcast.Vncast.Convert.Block.{Written, write_bytes-Written}

-- The buffers have the sizes that the handshake gave them, and the format is one of the three.
pub record IsSized (c : Connection) : Type 0 where
  pub source : length c.shadow ≡ c.w * c.h * 2
  pub target : length c.shm ≡ c.stride * c.h
  pub rows : c.w * pixel_size c.format ≤ c.stride
  pub known : c.format ≤ 2

-- The converted bytes of a pixel of the shadow buffer.
abbrev pub pixel_at : Connection → ℕ → ℕ → List ℕ
pixel_at c row col =
    let p = src_address c row col in
    pixel_bytes c.format c.force_grayscale (word16 (byte_at c.shadow p) (byte_at c.shadow (p + 1)))

get_elem?-byte_at : (bs : List ℕ) (i : ℕ) → i < length bs → get_elem? bs i ≡ some (byte_at bs i)
unfolding byte_at
get_elem?-byte_at [] i h = absurd (omega arith)
get_elem?-byte_at (b ∷ bs) zero h = refl
get_elem?-byte_at (b ∷ bs) (suc i) h = get_elem?-byte_at bs i (omega arith)

read_pixel-word16 :
    (src : List ℕ) (p : ℕ)
    → p + 1 < length src
    → read_pixel src p ≡ some (word16 (byte_at src p) (byte_at src (p + 1)))
unfolding read_pixel
read_pixel-word16 src p h =
    rw (get_elem?-byte_at src p (omega arith), get_elem?-byte_at src (p + 1) h, read_pixel) refl

-- A pixel ends within its row, and rows follow each other.
pixel_in_row : (n w col : ℕ) → col < w → col * n + n ≤ w * n
pixel_in_row n w col h = grind arith

row_in_image : (s h row : ℕ) → row < h → row * s + s ≤ h * s
row_in_image s h row lt = grind arith

pub addresses_apart :
    (c : Connection) (row col row' col' : ℕ)
    → IsSized c
    → col < c.w
    → (row < row') ⊎ ((row ≡ row') × (col < col'))
    → dst_address c row col + pixel_size c.format ≤ dst_address c row' col'
addresses_apart c row col row' col' sized h (inl above) = omega (
  arith,
  sized.rows,
  pixel_in_row (pixel_size c.format) c.w col h,
  row_in_image c.stride row' row above,
)
addresses_apart c row col row' col' sized h (inr (e, lt)) =
    omega (arith, pixel_in_row (pixel_size c.format) col' col lt, ap (λ k. k * c.stride) e)

commute : (a b : ℕ) → a * b ≡ b * a
commute a b = omega arith

source_in_bounds :
    (c : Connection) (row col : ℕ)
    → IsSized c
    → row < c.h
    → col < c.w
    → src_address c row col + 1 < length c.shadow
source_in_bounds c row col sized hr hc =
    omega (arith, sized.source, row_in_image c.w c.h row hr, commute c.w c.h)

target_in_bounds :
    (c : Connection) (row col : ℕ)
    → IsSized c
    → row < c.h
    → col < c.w
    → dst_address c row col + pixel_size c.format ≤ length c.shm
target_in_bounds c row col sized hr hc = omega (
  arith,
  sized.target,
  sized.rows,
  pixel_in_row (pixel_size c.format) c.w col hc,
  row_in_image c.stride c.h row hr,
  commute c.stride c.h,
)

pub convert_pixel-Written :
    (c : Connection) (row col : ℕ) (dst : List ℕ)
    → IsSized c
    → row < c.h
    → col < c.w
    → length dst ≡ length c.shm
    → (dst' : List ℕ) × (convert_pixel c row col dst ≡ some dst')
      × Written (pixel_at c row col) (dst_address c row col) dst dst'
unfolding convert_pixel
convert_pixel-Written c row col dst sized hr hc same =
    let (dst', run, done) = write_bytes-Written (pixel_at c row col) (dst_address c row col) dst (
      omega (
        arith,
        target_in_bounds c row col sized hr hc,
        length-pixel_bytes c.format c.force_grayscale (
            word16 (byte_at c.shadow (src_address c row col))
              (byte_at c.shadow (src_address c row col + 1))),
      )) in
    (
      dst',
      rw
          (
            read_pixel-word16 c.shadow (src_address c row col)
                (source_in_bounds c row col sized hr hc),
            convert_pixel,
          )
          run,
      done,
    )
