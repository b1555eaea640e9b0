-- ===== src/Vncast/Convert.antt =====
-- `blit_rect_to_shm` of src/rmioc/vncast_client.cpp. `none` is an access outside of a buffer.
pub mod Block
pub mod Bounds
pub mod Correct
use rmcast.Base.{
  ℕ, ◌+◌, ◌*◌, List, [], ◌∷◌, Option, none, some, Bool, ◌||◌, if◌then◌else◌, ltb, leb, length,
  get_elem?, set,
}
use rmcast.Base.Int.{ℤ, pos, pos_part, leb_ℤ}
use rmcast.Base.Loops.{for_from}
use rmcast.Clip.{Span, clip}
use rmcast.Vncast.{Connection}
use rmcast.Vncast.Pixel.{word16, pixel_bytes, pixel_size}

-- Stores at consecutive addresses.
pub write_bytes : List ℕ → ℕ → List ℕ → Option (List ℕ)
write_bytes [] p dst = some dst
write_bytes (b ∷ bs) p dst =
    let rest = write_bytes bs (p + 1) (set dst p b) in if ltb p (length dst) then rest else none

pub read_pixel : List ℕ → ℕ → Option ℕ
unfolding word16
read_pixel src p = elim (get_elem? src p) [
  | none ↦ none
  | some lo ↦ elim (get_elem? src (p + 1)) [ none ↦ none | some hi ↦ some (word16 lo hi) ]
]

-- The addresses of a pixel in the shadow buffer and in the shared memory.
abbrev pub src_address : Connection → ℕ → ℕ → ℕ
src_address c row col = row * (c.w * 2) + col * 2

abbrev pub dst_address : Connection → ℕ → ℕ → ℕ
dst_address c row col = row * c.stride + col * pixel_size c.format

-- One pixel of the nested loops.
pub convert_pixel : Connection → ℕ → ℕ → List ℕ → Option (List ℕ)
convert_pixel c row col dst = elim (read_pixel c.shadow (src_address c row col)) [
  | none ↦ none
  | some px ↦ write_bytes (pixel_bytes c.format c.force_grayscale px) (dst_address c row col) dst
]

pub convert_rect : Connection → Span → Span → Option (List ℕ)
convert_rect c across down =
    for_from
      (λ yy.
        for_from (λ xx. convert_pixel c (pos_part down.start + yy) (pos_part across.start + xx)) 0
          (pos_part across.size))
      0 (pos_part down.size) c.shm

pub blit_rect_to_shm : Connection → ℤ → ℤ → ℤ → ℤ → Option (List ℕ)
blit_rect_to_shm c x y w h =
    let across = clip (pos c.w) (record { start = x; size = w }) in
    let down = clip (pos c.h) (record { start = y; size = h }) in
    if leb_ℤ across.size (pos 0) || leb_ℤ down.size (pos 0)
    then some c.shm
    else if leb c.format 2
    then convert_rect c across down
    else some c.shm
