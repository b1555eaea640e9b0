-- ===== src/Vncast/Handshake/Detected.antt =====
-- The handshake with a server on any device that is detected.
use Prim.Native.String.{String}
use rmcast.Base.{
  ℕ, ◌*◌, ◌<◌, ◌≤◌, ◌^◌, ◌≡◌, ◌⊎◌, inl, inr, List, [], ◌∷◌, length, Option, some, Bool, true, false,
  ◌==◌, arith, Bool-cases, ==_iff,
}
use rmcast.Protocol.{version, ack_bytes}
use rmcast.Server.{Server, ack_of}
use rmcast.Detect.{
  DeviceInfo, Entry, known, paper_pro, mono as mono_panel, find_entry, detect, set_geometry,
}
use rmcast.Vncast.{Connection}
use rmcast.Vncast.Pixel.{pixel_size}
use rmcast.Vncast.Convert.Bounds.{IsSized}
use rmcast.Vncast.Handshake.{Settings, handshake}
use rmcast.Vncast.Handshake.Agreement.{IsOffered, handshake-IsSized}

-- A geometry whose rows hold their pixels and whose image stays small.
record IsRoomy (d : DeviceInfo) : Type 0 where
  depth : ((d.bpp ≡ 16) × (d.w * 2 ≤ d.bpl)) ⊎ ((d.bpp ≡ 32) × (d.w * 4 ≤ d.bpl))
  narrow : d.w < 2 ^ 14
  low : d.h < 2 ^ 14
  short_rows : d.bpl < 2 ^ 16

unfoldable AllRoomy : List Entry → Type 0
AllRoomy [] = Unit
AllRoomy (e ∷ es) = IsRoomy e.info × AllRoomy es

known-AllRoomy : AllRoomy known
unfolding AllRoomy
known-AllRoomy = (pro, (pro, (mono, (mono, (pro, tt)))))
  where
    pro : {cls : String} → IsRoomy (paper_pro cls)
    pro = record {
      depth = inr (omega arith);
      narrow = omega arith;
      low = omega arith;
      short_rows = omega arith;
    }

    mono : {cls : String} → IsRoomy (mono_panel cls)
    mono = record {
      depth = inl (omega arith);
      narrow = omega arith;
      low = omega arith;
      short_rows = omega arith;
    }

find_entry-IsRoomy :
    (contains : String → String → Bool) (machine : String) (es : List Entry)
    → AllRoomy es
    → IsRoomy (find_entry contains machine es)
unfolding AllRoomy find_entry
find_entry-IsRoomy contains machine [] all = record {
  depth = inr (omega arith);
  narrow = omega arith;
  low = omega arith;
  short_rows = omega arith;
}
find_entry-IsRoomy contains machine (e ∷ es) (roomy, all) =
    elim (Bool-cases (contains machine e.machine)) [
      | inl yes_it ↦ rw yes_it roomy
      | inr no_it ↦ rw no_it (find_entry-IsRoomy contains machine es all)
    ]

image_bytes : (stride h : ℕ) → stride < 2 ^ 16 → h < 2 ^ 14 → stride * h < 2 ^ 32
image_bytes stride h a b = omega (arith, times stride h (2 ^ 14) b)
  where
    times : (m n k : ℕ) → n < k → m * n ≤ m * k
    times m n k lt = grind arith

set_geometry-IsOffered :
    (gray : Bool) (d : DeviceInfo) (s : Server)
    → IsRoomy d
    → length s.shm_name ≤ 64
    → IsOffered (set_geometry gray d s)
unfolding set_geometry pixel_size
set_geometry-IsOffered true d s r name = record {
  w_word = omega (arith, r.narrow);
  h_word = omega (arith, r.low);
  stride_word = omega (arith, r.narrow);
  bpp_word = omega arith;
  bytes_word = image_bytes d.w d.h (omega (arith, r.narrow)) r.low;
  known_format = omega arith;
  rows = omega arith;
  short_name = name;
}
set_geometry-IsOffered false d s r name = elim r.depth [
  | inl (e, fits) ↦ rw ((==_iff d.bpp 16).1 e) (record {
    w_word = omega (arith, r.narrow);
    h_word = omega (arith, r.low);
    stride_word = omega (arith, r.short_rows);
    bpp_word = omega (arith, e);
    bytes_word = image_bytes d.bpl d.h r.short_rows r.low;
    known_format = omega arith;
    rows = fits;
    short_name = name;
  })
  | inr (e, fits) ↦ rw (deep d.bpp e) (record {
    w_word = omega (arith, r.narrow);
    h_word = omega (arith, r.low);
    stride_word = omega (arith, r.short_rows);
    bpp_word = omega (arith, e);
    bytes_word = image_bytes d.bpl d.h r.short_rows r.low;
    known_format = omega arith;
    rows = fits;
    short_name = name;
  })
]
  where
    deep : (n : ℕ) → n ≡ 32 → (n == 16) ≡ false
    deep n e = ground arith

-- Whatever machine the server runs on, and whether or not it uses the grayscale memory: if the
-- name of its shared memory is not longer than 64 bytes and memory of the size of its image can
-- be mapped under it, the client's handshake with it succeeds and leaves a connection whose
-- buffers have the sizes that every blit needs.
pub handshake_on_detected :
    (contains : String → String → Bool) (machine : String) (gray : Bool) (start : Server)
    (e : Settings) (open_shm : List ℕ → ℕ → Option (List ℕ)) (shm : List ℕ)
    → let s = set_geometry gray (detect contains machine) start in
      length start.shm_name ≤ 64
      → open_shm s.shm_name (s.stride * s.h) ≡ some shm
      → length shm ≡ s.stride * s.h
      → (c : Connection) × (handshake e open_shm (ack_bytes (ack_of s version)) ≡ inr c)
        × (c.w ≡ s.w)
        × (c.h ≡ s.h)
        × IsSized c
unfolding detect
handshake_on_detected contains machine gray start e open_shm shm name opened fits =
    let d = find_entry contains machine known in
    let roomy = find_entry-IsRoomy contains machine known known-AllRoomy in
    let (c, run, w, h, stride, bpp, format, named, mapped, sized) =
      handshake-IsSized e (set_geometry gray d start) open_shm shm
        (set_geometry-IsOffered gray d start roomy name) opened fits in
    (c, run, w, h, sized)
