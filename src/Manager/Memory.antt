-- ===== src/Manager/Memory.antt =====
-- The shared memory of a framebuffer: `createSHM`, `createDefaultSHM` and the destructor of
-- `ClientBackend` (middleware/extension/src/qtfb/fbmanagement.cpp).
pub mod Sizes
pub mod Released
use rmcast.Base.{
  ℕ, ◌+◌, ◌-◌, ◌%◌, ◌^◌, List, [], Option, none, some, Bool, true, false, not, ◌&&◌, ltb,
  if◌then◌else◌, ◌==◌, replicate,
}
use rmcast.Base.Int.{ℤ, pos, negsuc, ◌*ℤ◌, eq_ℤ}
use rmcast.Protocol.{to_int32, of_int32}
use rmcast.Manager.{ClientBackend, Image, Format, rgb16, rgb888, rgba8888, System, put, update}

abbrev pub fbfmt_rm2fb : ℕ
fbfmt_rm2fb = 0

abbrev pub fbfmt_rmpp_rgb888 : ℕ
fbfmt_rmpp_rgb888 = 1

abbrev pub fbfmt_rmpp_rgba8888 : ℕ
fbfmt_rmpp_rgba8888 = 2

abbrev pub fbfmt_rmpp_rgb565 : ℕ
fbfmt_rmpp_rgb565 = 3

abbrev pub fbfmt_rmppm_rgb888 : ℕ
fbfmt_rmppm_rgb888 = 4

abbrev pub fbfmt_rmppm_rgba8888 : ℕ
fbfmt_rmppm_rgba8888 = 5

abbrev pub fbfmt_rmppm_rgb565 : ℕ
fbfmt_rmppm_rgb565 = 6

-- `new ClientBackend()`
unfoldable pub new_backend : ClientBackend
new_backend = record {
  shm_fd = negsuc 0;
  shm_key = negsuc 0;
  shm = none;
  image = none;
  shm_type = negsuc 0;
  shm_size = 0;
  connections = [];
}

-- What the system answers to one call of `createSHM`: the value of `rand`, whether `shm_open` and
-- `ftruncate` succeed, the descriptor, and the address of the mapping, if there is one.
pub record Answers : Type 0 where
  pub random : ℕ
  pub opens : Bool
  pub fd : ℕ
  pub truncates : Bool
  pub mapping : Option ℕ

-- The answers for a size: `ftruncate` fails if it is negative as an `off_t`, `mmap` if it is 0.
unfoldable pub grants : Answers → ℕ → Answers
grants answers size = record answers {
  truncates = answers.truncates && ltb size (2 ^ 63);
  mapping = if size == 0 then none else answers.mapping;
}

-- The switch of `createSHM`: bytes per pixel and the image's format.
unfoldable pub layout_of : ℕ → Option (ℕ × Format)
layout_of type =
    if type == fbfmt_rm2fb
    then some (2, rgb16)
    else if type == fbfmt_rmpp_rgb888
    then some (3, rgb888)
    else if type == fbfmt_rmppm_rgb888
    then some (3, rgb888)
    else if type == fbfmt_rmpp_rgba8888
    then some (4, rgba8888)
    else if type == fbfmt_rmppm_rgba8888
    then some (4, rgba8888)
    else if type == fbfmt_rmpp_rgb565
    then some (2, rgb16)
    else if type == fbfmt_rmppm_rgb565
    then some (2, rgb16)
    else none

-- The conversion from `int` to a `size_t` of 64 bits.
unfoldable pub to_size : ℤ → ℕ
to_size (pos n) = n
to_size (negsuc n) = 2 ^ 64 - 1 - n

-- `height * width * bytes`, an `int` that wraps around, as a `size_t`.
unfoldable pub shm_size_of : ℤ → ℤ → ℕ → ℕ
unfolding to_size to_int32 of_int32 ◌*ℤ◌
shm_size_of width height bytes =
    to_size (to_int32 (of_int32 (height *ℤ width *ℤ pos bytes) % 2 ^ 32))

unfoldable pub link : System → ℤ → Bool → System
unfolding put
link s key now = record s { linked = λ j. if eq_ℤ j key then now else s.linked j }

-- From `shm_open` on: the system, the backend, and whether it has succeeded.
unfoldable pub map_shm :
    Answers → System → ClientBackend → ℕ × Format → ℤ → ℤ → System × ClientBackend × Bool
unfolding link update
map_shm answers s b (bytes, format) width height =
    if not answers.opens
    then (link s b.shm_key false, record b { shm_fd = negsuc 0 }, false)
    else let opened = link s b.shm_key true in
      let t = record opened { open_descriptors = s.open_descriptors + 1 } in
      let c = record b { shm_fd = pos answers.fd } in
      if not answers.truncates then (link t b.shm_key false, c, false) else elim answers.mapping [
        | none ↦ (
          link t b.shm_key false,
          record c {
            shm_fd = negsuc 0;
            shm = none;
            shm_size = 0;
            shm_type = negsuc 0;
            shm_key = negsuc 0;
          },
          false,
        )
        | some address ↦ (
          record t { memory = update t.memory address (some (replicate b.shm_size 0xFF)) },
          record c {
            shm = some address;
            image = some (record {
              bits = address;
              width = width;
              height = height;
              bytes_per_line = pos bytes *ℤ width;
              format = format;
            });
          },
          true,
        )
      ]

-- The fields that are set before `shm_open`.
abbrev pub prepare : Answers → ClientBackend → ℕ → ℕ → ClientBackend
prepare answers b type size = record b {
  shm_size = size;
  shm_type = pos type;
  shm_key = pos (answers.random % 2 ^ 31);
}

unfoldable pub create_shm :
    Answers → System → ClientBackend → ℕ → ℤ → ℤ → System × ClientBackend × Bool
unfolding shm_size_of map_shm grants
create_shm answers s b type width height = elim (layout_of type) [
  | none ↦ (s, b, false)
  | some layout ↦
      let size = shm_size_of width height layout.0 in
      map_shm (grants answers size) s (prepare answers b type size) layout width height
]

-- The switch of `createDefaultSHM`: the size that goes with a type.
unfoldable pub default_size : ℕ → ℤ × ℤ
default_size type =
    if type == fbfmt_rm2fb
    then (pos 1404, pos 1872)
    else if type == fbfmt_rmpp_rgb888
    then (pos 1620, pos 2160)
    else if type == fbfmt_rmpp_rgba8888
    then (pos 1620, pos 2160)
    else if type == fbfmt_rmpp_rgb565
    then (pos 1620, pos 2160)
    else if type == fbfmt_rmppm_rgb888
    then (pos 954, pos 1696)
    else if type == fbfmt_rmppm_rgba8888
    then (pos 954, pos 1696)
    else if type == fbfmt_rmppm_rgb565
    then (pos 954, pos 1696)
    else (negsuc 0, negsuc 0)

unfoldable pub create_default_shm :
    Answers → System → ClientBackend → ℕ → System × ClientBackend × Bool
create_default_shm answers s b type =
    create_shm answers s b type (default_size type).0 (default_size type).1

-- `~ClientBackend`
unfoldable pub destroy : ClientBackend → System → System
unfolding link update
destroy b s =
    let t : System = elim b.shm [
      | none ↦ s
      | some address ↦ record s { memory = update s.memory address none }
    ] in
    if eq_ℤ b.shm_key (negsuc 0) then t else link t b.shm_key false
