-- ===== src/Manager/Memory/Sizes.antt =====
-- The size of a framebuffer's memory against the image that is made on it.
use rmcast.Base.{
  ℕ, ◌+◌, ◌*◌, ◌-◌, ◌%◌, ◌^◌, ◌≤◌, ◌<◌, ◌≡◌, refl, some, Bool, true, if◌then◌else◌, ltb, lt→ltb,
  replicate, arith, ◌∙◌, subst,
}
use rmcast.Base.Int.{pos, pos_mul, eq_ℤ_self}
use rmcast.Protocol.{to_int32, of_int32}
use rmcast.Manager.{ClientBackend, Image, Format, System}
use rmcast.Manager.Maps.{update_self}
use rmcast.Manager.Memory.{
  grants, Answers, layout_of, to_size, shm_size_of, map_shm, create_shm, link,
}

-- The bytes that an image spans.
abbrev pub span : ℕ → ℕ → ℕ → ℕ
span width height bytes = height * (bytes * width)

-- `n` as an `int` that wraps around and then as a `size_t`.
unfoldable pub wrapped : ℕ → ℕ
wrapped n = let low = n % 2 ^ 32 in if ltb low (2 ^ 31) then low else 2 ^ 64 - 2 ^ 32 + low

wrapped_size :
    (low : ℕ)
    → low < 2 ^ 32
    → to_size (to_int32 low) ≡ (if ltb low (2 ^ 31) then low else 2 ^ 64 - 2 ^ 32 + low)
unfolding to_size to_int32
wrapped_size low h = ground arith

pub shm_size_of_pos :
    (width height bytes : ℕ)
    → shm_size_of (pos width) (pos height) bytes ≡ wrapped (height * width * bytes)
unfolding shm_size_of of_int32 wrapped
shm_size_of_pos width height bytes =
    rw (pos_mul, pos_mul) (wrapped_size (height * width * bytes % 2 ^ 32) (omega arith))

pub wrapped_small : (n : ℕ) → n < 2 ^ 31 → wrapped n ≡ n
unfolding wrapped
wrapped_small n h = ground arith

wrapped_short : (n : ℕ) → 2 ^ 31 ≤ n → n % 2 ^ 32 < 2 ^ 31 → wrapped n < n
unfolding wrapped
wrapped_short n above low = ground arith

-- A size that is not negative as an `off_t` comes from a product whose low 32 bits are not negative.
wrapped_low : (n : ℕ) → wrapped n < 2 ^ 63 → n % 2 ^ 32 < 2 ^ 31
unfolding wrapped
wrapped_low n h = ground arith

-- The image that `createSHM` makes.
abbrev pub image_on : ℕ → ℕ → ℕ → ℕ × Format → Image
image_on address width height layout = record {
  bits = address;
  width = pos width;
  height = pos height;
  bytes_per_line = pos (layout.0 * width);
  format = layout.1;
}

-- What `createSHM` leaves when every call of the system succeeds, for a known type.
pub record Made (answers : Answers) (s : System) (type width height : ℕ) (layout : ℕ × Format)
    (address : ℕ) (r : System × ClientBackend × Bool) : Type 0 where
  pub done : r.2 ≡ true
  pub shm : r.1.shm ≡ some address
  pub image : r.1.image ≡ some (image_on address width height layout)
  pub shm_type : r.1.shm_type ≡ pos type
  pub shm_key : r.1.shm_key ≡ pos (answers.random % 2 ^ 31)
  pub white : r.0.memory address ≡ some (replicate r.1.shm_size 0xFF)
  pub name : r.0.linked r.1.shm_key ≡ true
  pub descriptor : r.0.open_descriptors ≡ s.open_descriptors + 1
  pub size : r.1.shm_size ≡ wrapped (height * width * layout.0)

grants_truncates :
    (answers : Answers) (size : ℕ)
    → answers.truncates ≡ true
    → size < 2 ^ 63
    → (grants answers size).truncates ≡ true
unfolding grants
grants_truncates answers size e h = rw e (lt→ltb size (2 ^ 63) h)

grants_mapping :
    (answers : Answers) (size : ℕ) → 0 < size → (grants answers size).mapping ≡ answers.mapping
unfolding grants
grants_mapping answers size h = ground arith

pub create_shm-Made :
    (answers : Answers) (s : System) (b : ClientBackend) (type width height : ℕ)
    (layout : ℕ × Format) (address : ℕ)
    → layout_of type ≡ some layout
    → answers.opens ≡ true
    → answers.truncates ≡ true
    → answers.mapping ≡ some address
    → 0 < shm_size_of (pos width) (pos height) layout.0
    → shm_size_of (pos width) (pos height) layout.0 < 2 ^ 63
    → Made answers s type width height layout address
        (create_shm answers s b type (pos width) (pos height))
unfolding create_shm map_shm link
create_shm-Made answers s b type width height layout address e opens truncates maps some_size sane =
    let size = shm_size_of (pos width) (pos height) layout.0 in
    let cut = grants_truncates answers size truncates sane in
    let mapped = grants_mapping answers size some_size ∙ maps in
    rw (create_shm, e, opens, cut, mapped, shm_size_of_pos, pos_mul)
      (record {
        done = refl;
        shm = refl;
        image = refl;
        shm_type = refl;
        shm_key = refl;
        white = update_self s.memory address _;
        name = rw eq_ℤ_self refl;
        descriptor = refl;
        size = refl;
      })

-- A framebuffer of a known type, when every call of the system succeeds:
-- the memory is mapped and all white, the image stands on it with rows that follow one another, and
-- the memory is as long as the image's rows together if `height * width * bytes` is below 2 ^ 31.
-- From there on the product has wrapped around, and the memory is shorter than the image. The size is
-- taken to be one for which `ftruncate` and `mmap` can succeed: neither 0 nor, as an `off_t`,
-- negative.
pub create_shm-covers :
    (answers : Answers) (s : System) (b : ClientBackend) (type width height : ℕ)
    (layout : ℕ × Format) (address : ℕ)
    → layout_of type ≡ some layout
    → answers.opens ≡ true
    → answers.truncates ≡ true
    → answers.mapping ≡ some address
    → 0 < shm_size_of (pos width) (pos height) layout.0
    → shm_size_of (pos width) (pos height) layout.0 < 2 ^ 63
    → let r = create_shm answers s b type (pos width) (pos height) in
      let n = height * width * layout.0 in
      Made answers s type width height layout address r
      × (n ≡ span width height layout.0)
      × (n < 2 ^ 31 → r.1.shm_size ≡ n)
      × (2 ^ 31 ≤ n → r.1.shm_size < n)
create_shm-covers answers s b type width height layout address e opens truncates maps some_size
      sane =
    let made =
      create_shm-Made answers s b type width height layout address e opens truncates maps some_size
        sane in
    let n = height * width * layout.0 in
    let size = made.size in
    (
      made,
      grind arith,
      λ below. size ∙ wrapped_small n below,
      λ above. rw size (
          wrapped_short n above
            (wrapped_low n (subst (λ k. k < 2 ^ 63) (shm_size_of_pos width height layout.0) sane))),
    )
