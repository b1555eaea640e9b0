-- ===== src/Screen/Blit/Paint.antt =====
-- The nested loops of `blit_rotated`, over whatever paints one pixel.
use rmcast.Base.{
  ℕ, ◌+◌, ◌*◌, ◌<◌, ◌≡◌, ◌⊎◌, inl, inr, refl, List, Option, some, length, arith, dec_lt, ◌∙◌, subst,
}
use rmcast.Base.Int.{ℤ, pos, pos_part, neg_part, ◌+ℤ◌, ◌≤ℤ◌, ◌<ℤ◌, int_laws, parts_disjoint}
use rmcast.Base.Index.{index-lt}
use rmcast.Base.Loops.{for_from, for_from_inv}
use rmcast.Screen.{Rect, Screen}
use rmcast.Screen.Blit.Cells.{Put}
use rmcast.Screen.Blit.Shows.{Shows, Shows-none, Shows-iff, Shows-Put, Same, source_index, placed}

-- The rectangle lies within the source, and both buffers have the size of their images.
pub record Fits (s : Screen) (r : Rect) : Type 0 where
  pub left : pos 0 ≤ℤ r.x
  pub top : pos 0 ≤ℤ r.y
  pub right : r.x +ℤ r.w ≤ℤ s.src_width
  pub bottom : r.y +ℤ r.h ≤ℤ s.src_height
  pub wide : pos 0 <ℤ r.w
  pub high : pos 0 <ℤ r.h
  pub source : length s.src_buffer ≡ pos_part s.src_width * pos_part s.src_height
  pub panel : length s.device.pixels ≡ pos_part s.device.xres * pos_part s.device.yres

-- The pixels of a rectangle.
abbrev pub InRect : Rect → ℤ → ℤ → Type 0
InRect r row col = (r.y ≤ℤ row) × (row <ℤ r.y +ℤ r.h) × (r.x ≤ℤ col) × (col <ℤ r.x +ℤ r.w)

-- Those that are painted after `y` whole rows and `x` pixels of the next.
abbrev Painted : Rect → ℕ → ℕ → ℤ → ℤ → Type 0
Painted r y x row col =
    (r.y ≤ℤ row)
    × (r.x ≤ℤ col)
    × (col <ℤ r.x +ℤ r.w)
    × ((row <ℤ r.y +ℤ pos y) ⊎ (Same row (r.y +ℤ pos y) × (col <ℤ r.x +ℤ pos x)))

module _ (s : Screen) (r : Rect) (fits : Fits s r) where
  abbrev Panel : (ℤ → ℤ → Type 0) → List ℕ → Type 0
  Panel Q dst = Shows s Q s.device.pixels dst

  pub in_source :
      (y x : ℕ)
      → y < pos_part r.h
      → x < pos_part r.w
      → source_index s (r.y +ℤ pos y) (r.x +ℤ pos x) < length s.src_buffer
  in_source y x hy hx = rw fits.source (
      index-lt (pos_part s.src_width) (pos_part s.src_height) (pos_part (r.x +ℤ pos x))
        (pos_part (r.y +ℤ pos y))
        (omega
          (int_laws, parts_disjoint r.w, parts_disjoint (r.x +ℤ pos x), parts_disjoint s.src_width))
        (omega (
          int_laws,
          parts_disjoint r.h,
          parts_disjoint (r.y +ℤ pos y),
          parts_disjoint s.src_height,
        )))

  Painted-split :
      (y x : ℕ) (row col : ℤ)
      → Painted r y (x + 1) row col
      → (Same row (r.y +ℤ pos y) × Same col (r.x +ℤ pos x))
        ⊎ (Painted r y x row col × (Same row (r.y +ℤ pos y) × Same col (r.x +ℤ pos x) → ⊥))
  Painted-split y x row col (a, b, c, inl above) =
      inr ((a, b, c, inl above), λ same. omega int_laws)
  Painted-split y x row col (a, b, c, inr (e, h)) =
      elim (dec_lt (pos_part col + neg_part (r.x +ℤ pos x))
        (pos_part (r.x +ℤ pos x) + neg_part col)) [
          | yes before ↦ inr ((a, b, c, inr (e, before)), λ same. omega int_laws)
          | no here ↦ inl (e, omega int_laws)
        ]

  Painted-more : (y x : ℕ) (row col : ℤ) → Painted r y x row col → Painted r y (x + 1) row col
  Painted-more y x row col (a, b, c, inl above) = (a, b, c, inl above)
  Painted-more y x row col (a, b, c, inr (e, h)) = (a, b, c, inr (e, omega int_laws))

  Painted-here : (y x : ℕ) → x < pos_part r.w → Painted r y (x + 1) (r.y +ℤ pos y) (r.x +ℤ pos x)
  Painted-here y x hx = (
    omega int_laws,
    omega int_laws,
    omega (int_laws, parts_disjoint r.w),
    inr (refl, omega int_laws),
  )

  -- A whole row is as good as no pixel of the next one.
  next_row :
      (y : ℕ) (row col : ℤ) → Painted r y (pos_part r.w) row col → Painted r (y + 1) 0 row col
  next_row y row col (a, b, c, inl above) = (a, b, c, inl (omega int_laws))
  next_row y row col (a, b, c, inr (e, h)) = (a, b, c, inl (omega int_laws))

  whole_row :
      (y : ℕ) (row col : ℤ) → Painted r (y + 1) 0 row col → Painted r y (pos_part r.w) row col
  whole_row y row col (a, b, c, inr (e, h)) = absurd (omega int_laws)
  whole_row y row col (a, b, c, inl above) =
      elim (dec_lt (pos_part row + neg_part (r.y +ℤ pos y))
        (pos_part (r.y +ℤ pos y) + neg_part row)) [
          | yes before ↦ (a, b, c, inl before)
          | no here ↦
              (a, b, c, inr (omega int_laws, omega (int_laws, parts_disjoint r.w, fits.wide)))
        ]

  Painted-all : (row col : ℤ) → Painted r (0 + pos_part r.h) 0 row col → InRect r row col
  Painted-all row col (a, b, c, inl above) =
      (a, omega (int_laws, parts_disjoint r.h, fits.high), b, c)
  Painted-all row col (a, b, c, inr (e, h)) = absurd (omega int_laws)

  all-Painted : (row col : ℤ) → InRect r row col → Painted r (0 + pos_part r.h) 0 row col
  all-Painted row col (a, b, c, d) = (a, c, d, inl (omega (int_laws, parts_disjoint r.h)))

  nothing-Painted : (row col : ℤ) → Painted r 0 0 row col → ⊥
  nothing-Painted row col (a, b, c, inl above) = omega int_laws
  nothing-Painted row col (a, b, c, inr (e, h)) = omega int_laws

module _ (s : Screen) (r : Rect) (fits : Fits s r) (cell : ℕ → ℕ → List ℕ → Option (List ℕ))
    (cell-Put : (y x : ℕ) (dst : List ℕ)
      → y < pos_part r.h
      → x < pos_part r.w
      → length dst ≡ pos_part s.device.xres * pos_part s.device.yres
      → let row = r.y +ℤ pos y in
        let col = r.x +ℤ pos x in
        (dst' : List ℕ) × (cell y x dst ≡ some dst')
        × Put s.device s.src_buffer
            (placed s row col).0
            (placed s row col).1
            (source_index s row col)
            dst
            dst') where
  cell-Shows :
      (y x : ℕ) (dst : List ℕ)
      → y < pos_part r.h
      → x < pos_part r.w
      → Panel s r fits (Painted r y x) dst
      → (dst' : List ℕ) × (cell y x dst ≡ some dst') × Panel s r fits (Painted r y (x + 1)) dst'
  cell-Shows y x dst hy hx h =
      let (dst', run, put) = cell-Put y x dst hy hx (h.same_length ∙ fits.panel) in
      (
        dst',
        run,
        Shows-Put s s.device.pixels (Painted r y x) (Painted r y (x + 1)) (r.y +ℤ pos y)
            (r.x +ℤ pos x) dst dst' (Painted-more s r fits y x) (Painted-here s r fits y x hx)
            (Painted-split s r fits y x) h put,
      )

  row-Shows :
      (y : ℕ) (dst : List ℕ)
      → y < pos_part r.h
      → Panel s r fits (Painted r y 0) dst
      → (dst' : List ℕ) × (for_from (cell y) 0 (pos_part r.w) dst ≡ some dst')
        × Panel s r fits (Painted r (y + 1) 0) dst'
  row-Shows y dst hy h =
      let (dst', run, done) =
        for_from_inv (cell y) (λ x d. Panel s r fits (Painted r y x) d) 0 (pos_part r.w) dst
          (λ x d lo hi inv. cell-Shows y x d hy (omega arith) inv) h in
      (
        dst',
        run,
        Shows-iff s s.device.pixels
            (λ row col p.
              next_row s r fits y row col
                (subst (λ (n : ℕ). Painted r y n row col) (omega arith) p))
            (λ row col p.
              subst (λ (n : ℕ). Painted r y n row col) (omega arith)
                (whole_row s r fits y row col p))
            done,
      )

  -- The loops do not fault, show every pixel of the rectangle at its place, and leave every other
  -- cell of the panel alone.
  pub rows-Shows :
      (dst : List ℕ) × (for_from
          (λ y. for_from (cell y) 0 (pos_part r.w))
          0
          (pos_part r.h)
          s.device.pixels
        ≡ some dst)
      × Shows s (InRect r) s.device.pixels dst
  rows-Shows =
      let (dst, run, done) =
        for_from_inv (λ y. for_from (cell y) 0 (pos_part r.w))
          (λ y d. Panel s r fits (Painted r y 0) d) 0 (pos_part r.h) s.device.pixels
          (λ y d lo hi inv. row-Shows y d (omega arith) inv)
          (Shows-none s s.device.pixels (Painted r 0 0) (nothing-Painted s r fits)) in
      (dst, run, Shows-iff s s.device.pixels (Painted-all s r fits) (all-Painted s r fits) done)
