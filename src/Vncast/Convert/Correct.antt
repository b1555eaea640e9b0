-- ===== src/Vncast/Convert/Correct.antt =====
-- What `blit_rect_to_shm` leaves in the shared memory.
use rmcast.Base.{
  ℕ, ◌+◌, ◌<◌, ◌≤◌, ◌≡◌, ◌≢◌, inl, inr, refl, List, some, true, length, get_elem?, arith, leb,
}
use rmcast.Base.Int.{ℤ, pos, pos_part, ◌≤ℤ◌, ◌<ℤ◌, int_laws, parts_disjoint, leb_ℤ-cases}
use rmcast.Clip.{Span, Within, clip, clip-Within, clip_bounds}
use rmcast.Vncast.{Connection}
use rmcast.Vncast.Pixel.{pixel_size, length-pixel_bytes}
use rmcast.Vncast.Convert.{dst_address, convert_pixel, convert_rect, blit_rect_to_shm}
use rmcast.Vncast.Convert.Block.{rows-Filled}
use rmcast.Vncast.Convert.Bounds.{IsSized, pixel_at, addresses_apart, convert_pixel-Written}

-- The pixels of a rectangle that exist on the panel.
abbrev pub InView : Connection → ℤ → ℤ → ℤ → ℤ → ℕ → ℕ → Type 0
InView c x y w h row col =
    Within (record { start = x; size = w }) (pos col)
    × Within (record { start = y; size = h }) (pos row)
    × (col < c.w)
    × (row < c.h)

-- The pixels `Q` are converted, and every other byte is as before.
pub record Converted (c : Connection) (Q : ℕ → ℕ → Type 0) (dst : List ℕ) : Type 0 where
  pub same_length : length dst ≡ length c.shm
  pub new :
      (row col k : ℕ)
      → Q row col
      → k < pixel_size c.format
      → get_elem? dst (dst_address c row col + k) ≡ get_elem? (pixel_at c row col) k
  pub old :
      (i : ℕ)
      → ((row col k : ℕ) → Q row col → k < pixel_size c.format → i ≢ dst_address c row col + k)
      → get_elem? dst i ≡ get_elem? c.shm i

-- The loops over a rectangle that lies on the panel.
convert_rect-Converted :
    (c : Connection) (across down : Span)
    → IsSized c
    → pos_part across.start + pos_part across.size ≤ c.w
    → pos_part down.start + pos_part down.size ≤ c.h
    → (dst : List ℕ) × (convert_rect c across down ≡ some dst)
      × Converted c
          (λ row col.
            (pos_part down.start ≤ row)
            × (row < pos_part down.start + pos_part down.size)
            × (pos_part across.start ≤ col)
            × (col < pos_part across.start + pos_part across.size))
          dst
unfolding convert_rect
convert_rect-Converted c across down sized right bottom =
    let (dst, run, done) =
      rows-Filled (pixel_size c.format) (pos_part across.start) (pos_part down.start)
        (pos_part across.size) (pos_part down.size) (dst_address c) (pixel_at c) c.shm
        (λ row col. length-pixel_bytes c.format c.force_grayscale _)
        (λ row col row' col' h h' lt. addresses_apart c row col row' col' sized (omega arith) lt)
        (λ yy xx. convert_pixel c (pos_part down.start + yy) (pos_part across.start + xx))
        (λ yy xx d hy hx same.
          convert_pixel-Written c (pos_part down.start + yy) (pos_part across.start + xx) d sized
            (omega arith) (omega arith) same) in
    (dst, run, record { same_length = done.same_length; new = done.new; old = done.old })

blank :
    (c : Connection) (Q : ℕ → ℕ → Type 0) → ((row col : ℕ) → Q row col → ⊥) → Converted c Q c.shm
blank c Q never = record {
  same_length = refl;
  new = λ row col k q lt. absurd (never row col q);
  old = λ i out. refl;
}

Converted-iff :
    (c : Connection) {Q R : ℕ → ℕ → Type 0} {dst : List ℕ}
    → ((row col : ℕ) → (Q row col → R row col) × (R row col → Q row col))
    → Converted c Q dst
    → Converted c R dst
Converted-iff c same h = record {
  same_length = h.same_length;
  new = λ row col k r lt. h.new row col k ((same row col).1 r) lt;
  old = λ i out. h.old i (λ row col k q lt. out row col k ((same row col).0 q) lt);
}

span_points :
    (limit : ℕ) (a : Span) (k : ℕ)
    → let b = clip (pos limit) a in
      pos 0 <ℤ b.size
      → ((pos_part b.start ≤ k) × (k < pos_part b.start + pos_part b.size)
          → Within a (pos k) × (k < limit))
        × (Within a (pos k) × (k < limit)
            → (pos_part b.start ≤ k) × (k < pos_part b.start + pos_part b.size))
span_points limit a k some_left =
    let b = clip (pos limit) a in
    let (there, back) = clip-Within (pos limit) a (pos k) in
    let (low, high) = clip_bounds (pos limit) a in
    let start = parts_disjoint b.start in
    let size = parts_disjoint b.size in
    (
      λ h. let (i, j, l) = there (omega int_laws, omega int_laws) in (i, omega arith),
      λ h. let (i, j) = back (h.0, omega arith, omega arith) in (omega int_laws, omega int_laws),
    )

span_fits :
    (limit : ℕ) (a : Span)
    → let b = clip (pos limit) a in pos 0 <ℤ b.size → pos_part b.start + pos_part b.size ≤ limit
span_fits limit a some_left =
    let b = clip (pos limit) a in
    omega (int_laws, clip_bounds (pos limit) a, parts_disjoint b.start, parts_disjoint b.size)

span_empty :
    (limit : ℕ) (a : Span) (k : ℕ)
    → (clip (pos limit) a).size ≤ℤ pos 0
    → Within a (pos k)
    → k < limit
    → ⊥
span_empty limit a k empty inside lt =
    let (i, j) = (clip-Within (pos limit) a (pos k)).1 (inside, omega arith, omega arith) in
    omega int_laws

-- Where the buffers have the sizes that the handshake gives them and the format is known,
-- `blit_rect_to_shm` never reads or writes outside of them. Every pixel of the rectangle that is
-- on the panel is converted into its bytes at its address, and no other byte of the shared memory
-- changes.
pub blit_rect_to_shm-Converted :
    (c : Connection) (x y w h : ℤ)
    → IsSized c
    → (dst : List ℕ) × (blit_rect_to_shm c x y w h ≡ some dst) × Converted c (InView c x y w h) dst
unfolding blit_rect_to_shm
blit_rect_to_shm-Converted c x y w h sized = elim (leb_ℤ-cases across.size (pos 0)) [
  | inl (e, le) ↦ (
    c.shm,
    rw e,
    blank c (InView c x y w h)
        (λ row col v. span_empty c.w (record { start = x; size = w }) col le v.0 v.2),
  )
  | inr (e, lt) ↦ elim (leb_ℤ-cases down.size (pos 0)) [
    | inl (f, le) ↦ (
      c.shm,
      rw (e, f),
      blank c (InView c x y w h)
          (λ row col v. span_empty c.h (record { start = y; size = h }) row le v.1 v.3),
    )
    | inr (f, lt') ↦
        let (dst, run, done) =
          convert_rect-Converted c across down sized
            (span_fits c.w (record { start = x; size = w }) lt)
            (span_fits c.h (record { start = y; size = h }) lt') in
        (
          dst,
          rw (e, f, is_known c.format sized.known) run,
          Converted-iff c
              (λ row col.
                let (a, b) = span_points c.w (record { start = x; size = w }) col lt in
                let (a', b') = span_points c.h (record { start = y; size = h }) row lt' in
                (
                  λ (i, j, k, l). ((a (k, l)).0, (a' (i, j)).0, (a (k, l)).1, (a' (i, j)).1),
                  λ (i, j, k, l). ((b' (j, l)).0, (b' (j, l)).1, (b (i, k)).0, (b (i, k)).1),
                ))
              done,
        )
  ]
]
  where
    across : Span
    across = clip (pos c.w) (record { start = x; size = w })

    down : Span
    down = clip (pos c.h) (record { start = y; size = h })

    is_known : (n : ℕ) → n ≤ 2 → leb n 2 ≡ true
    is_known n le = ground arith
