-- ===== src/Detect.antt =====
-- `DeviceInfo` of middleware/extension/src/detect.cpp and detect.h, and the geometry that
-- `Server::start` of middleware/extension/src/qtfb/server.cpp takes from it. Qt's
-- `QString::contains` without regard to case is an argument.
use Prim.Native.String.{String}
use rmcast.Base.{ℕ, ◌*◌, List, [], ◌∷◌, Bool, true, false, if◌then◌else◌, ◌==◌}
use rmcast.Server.{Server}

pub record DeviceInfo : Type 0 where
  pub device_class : String
  pub w : ℕ
  pub h : ℕ
  pub bpl : ℕ
  pub bpp : ℕ
  pub needs_qtfb : Bool

-- `Entry`: a part of the name of a machine, and what is known of it.
pub record Entry : Type 0 where
  pub machine : String
  pub info : DeviceInfo

abbrev pub paper_pro : String → DeviceInfo
paper_pro cls = record {
  device_class = cls;
  w = 1620;
  h = 2160;
  bpl = 1620 * 4;
  bpp = 32;
  needs_qtfb = true;
}

abbrev pub mono : String → DeviceInfo
mono cls = record {
  device_class = cls;
  w = 1404;
  h = 1872;
  bpl = 1404 * 2;
  bpp = 16;
  needs_qtfb = false;
}

-- `kKnown`
abbrev pub known : List Entry
known =
    record { machine = "ferrari"; info = paper_pro "rMPP" }
    ∷ record { machine = "reMarkable Paper Pro"; info = paper_pro "rMPP" }
    ∷ record { machine = "reMarkable 2.0"; info = mono "rM2" }
    ∷ record { machine = "reMarkable 1.0"; info = mono "rM1" }
    ∷ record { machine = "reMarkable Paper Pro Move"; info = paper_pro "rMPPM" }
    ∷ []

-- The loop of `detect`, with the member initialisers for a machine that is not known.
unfoldable pub find_entry : (String → String → Bool) → String → List Entry → DeviceInfo
find_entry contains machine [] = paper_pro "unknown"
find_entry contains machine (e ∷ entries) =
    let rest = find_entry contains machine entries in
    if contains machine e.machine then e.info else rest

unfoldable pub detect : (String → String → Bool) → String → DeviceInfo
unfolding find_entry
detect contains machine = find_entry contains machine known

-- The first lines of `start`.
unfoldable pub set_geometry : Bool → DeviceInfo → Server → Server
set_geometry use_grayscale_shm info s =
    if use_grayscale_shm
    then record s { w = info.w; h = info.h; bpp = 8; stride = info.w; format = 2 }
    else record s {
      w = info.w;
      h = info.h;
      stride = info.bpl;
      bpp = info.bpp;
      format = if info.bpp == 16 then 0 else 1;
    }
