-- ===== src/Screen/Setup.antt =====
-- The constructor of `app::screen`, `create_framebuf` and `set_effective_orientation` of
-- src/app/screen.cpp. The environment and `strtol` are arguments; the log lines are left out.
pub mod Tuning
pub mod Resize
pub mod Oriented
use Prim.Native.String.{String}
use text.Mathlib.Text.{◌==◌ as str_eq}
use rmcast.Base.{
  ℕ, ◌*◌, ◌-◌, ◌^◌, ◌+◌, ◌/◌, List, [], replicate, Option, none, some, Bool, true, false, ◌&&◌,
  ◌||◌, not, if◌then◌else◌,
}
use mathlib.Core.Bool.{xor}
use rmcast.Base.Int.{ℤ, pos, negsuc, pos_part, leb_ℤ, ltb_ℤ, eq_ℤ}
use rmcast.Orientation.{
  Orientation, portrait, landscape_cw, inverted_portrait, landscape_ccw, auto, is_same,
}
use rmcast.Screen.{Rect, zero_rect, Device, Screen, standard, fast}

-- `REFRESH_MODE_…` of middleware/extension/src/qtfb/common.h
abbrev refresh_mode_fast : ℕ
refresh_mode_fast = 1

abbrev refresh_mode_animate : ℕ
refresh_mode_animate = 2

abbrev refresh_mode_content : ℕ
refresh_mode_content = 3

abbrev refresh_mode_ui : ℕ
refresh_mode_ui = 4

abbrev pub Env : Type 0
Env = String → Option String

-- The repaint delay and waveform of the standard mode, by `VNSEE_WAVEFORM_MODE`.
pub standard_tuning : Option String → ℕ × ℕ
standard_tuning none = (500, refresh_mode_ui)
standard_tuning (some v) =
    if str_eq v "FASTEST"
    then (50, refresh_mode_animate)
    else if str_eq v "FAST"
    then (200, refresh_mode_fast)
    else if str_eq v "STANDARD"
    then (500, refresh_mode_ui)
    else if str_eq v "SLOW"
    then (1000, refresh_mode_content)
    else (500, refresh_mode_ui)

-- `is_vncast` is the device's answer.
unfoldable pub create : Device → Bool → Orientation → Env → Screen
unfolding standard_tuning
create device is_vncast orientation env =
    let (delay, waveform) = standard_tuning (env "VNSEE_WAVEFORM_MODE") in
    record {
      device = device;
      update_info = record { rect = zero_rect; has_update = false };
      last_repaint = 0;
      repaint_mode = if is_vncast then fast else standard;
      standard_repaint_delay = delay;
      fast_repaint_delay = 16;
      standard_waveform_mode = waveform;
      fast_waveform_mode = refresh_mode_animate;
      requested = orientation;
      effective = if is_same orientation auto then portrait else orientation;
      src_buffer = [];
      src_width = pos 0;
      src_height = pos 0;
    }

-- The fields of `rfbClient` that the constructor sets.
pub record VncConfig : Type 0 where
  pub encodings : Option String
  pub compress_level : ℤ
  pub quality_level : ℤ
  pub enable_jpeg : Bool

-- The chain over `VNSEE_ENCODING`, whose last case leaves the library's own settings.
pick_encoding : String → VncConfig → VncConfig
pick_encoding v c =
    if str_eq v "RAW"
    then record c { encodings = some "raw" }
    else if str_eq v "COPYRECT"
    then record c { encodings = some "copyrect" }
    else if str_eq v "TIGHT"
    then record {
      encodings = some "tight";
      compress_level = pos 9;
      quality_level = pos 0;
      enable_jpeg = true;
    }
    else if str_eq v "HEXTILE"
    then record c { encodings = some "hextile" }
    else if str_eq v "ZLIB"
    then record c { encodings = some "zlib"; compress_level = pos 9 }
    else if str_eq v "ZLIBHEX"
    then record c { encodings = some "zlibhex"; compress_level = pos 9 }
    else if str_eq v "TRLE"
    then record c { encodings = some "trle" }
    else if str_eq v "ZRLE"
    then record c { encodings = some "zrle" }
    else if str_eq v "ZYWRLE"
    then record c { encodings = some "zywrle"; quality_level = pos 0 }
    else if str_eq v "ULTRA"
    then record c { encodings = some "ultra" }
    else if str_eq v "ULTRAZIP"
    then record c { encodings = some "ultrazip" }
    else if str_eq v "CORRE"
    then record c { encodings = some "corre" }
    else if str_eq v "RRE"
    then record c { encodings = some "rre" }
    else c

-- `prefer_mono && prefer_mono[0] == '1'`
unfoldable pub starts_with_one : Option String → Bool
starts_with_one none = false
starts_with_one (some String.[]) = false
starts_with_one (some (String.◌∷◌ c v)) = str_eq (String.◌∷◌ c String.[]) "1"

pub default_encodings : Option String → String
unfolding starts_with_one
default_encodings prefer_mono =
    if starts_with_one prefer_mono
    then "rcastmono1z rcastmono1 copyrect tight zrle hextile raw"
    else "copyrect tight zrle hextile raw"

pub choose_encoding : Env → VncConfig → VncConfig
unfolding pick_encoding default_encodings
choose_encoding env c = elim (env "VNSEE_ENCODING") [
  | some v ↦ pick_encoding v c
  | none ↦ record c { encodings = some (default_encodings (env "VNCAST_PREFER_MONO1")) }
]

pub compress_level_of : (String → ℤ) → Option String → ℤ
compress_level_of strtol none = pos 0
compress_level_of strtol (some v) =
    if leb_ℤ (pos 0) (strtol v) && leb_ℤ (strtol v) (pos 9) then strtol v else pos 0

pub configure : (String → ℤ) → Env → VncConfig → VncConfig
unfolding choose_encoding compress_level_of
configure strtol env c = record (choose_encoding env c) {
  compress_level = compress_level_of strtol (env "VNCAST_COMPRESS_LEVEL");
  quality_level = negsuc 0;
  enable_jpeg = false;
}

-- `Orientation::Auto` against the shape of the source.
pub resolve : Screen → ℤ → ℤ → Orientation
resolve s sw sh =
    let fb_portrait = ltb_ℤ s.device.xres s.device.yres in
    let src_portrait = ltb_ℤ sw sh in
    if is_same s.requested auto
    then (if xor fb_portrait src_portrait then landscape_ccw else portrait)
    else s.effective

-- `none` is the exception for a source without pixels.
pub create_framebuf : Screen → ℤ → ℤ → Option Screen
unfolding resolve
create_framebuf s sw sh =
    if leb_ℤ sw (pos 0) || leb_ℤ sh (pos 0)
    then none
    else some (record s {
      src_width = sw;
      src_height = sh;
      effective = resolve s sw sh;
      src_buffer = replicate (pos_part sw * pos_part sh) 0;
    })

-- The lambda `fits_panel` of `create_framebuf`.
unfoldable pub fits_panel : Orientation → ℤ → ℤ → ℤ → ℤ → Bool
fits_panel portrait sw sh xres yres = eq_ℤ sw xres && eq_ℤ sh yres
fits_panel inverted_portrait sw sh xres yres = eq_ℤ sw xres && eq_ℤ sh yres
fits_panel landscape_cw sw sh xres yres = eq_ℤ sw yres && eq_ℤ sh xres
fits_panel landscape_ccw sw sh xres yres = eq_ℤ sw yres && eq_ℤ sh xres
fits_panel auto sw sh xres yres = false

unfoldable pub set_effective_orientation : Screen → Orientation → Screen
set_effective_orientation s o =
    if is_same o auto
    then s
    else if is_same s.effective o
    then s
    else if ltb_ℤ (pos 0) s.src_width && ltb_ℤ (pos 0) s.src_height
    then record s {
      effective = o;
      update_info = record {
        rect = record { x = pos 0; y = pos 0; w = s.src_width; h = s.src_height };
        has_update = true;
      };
    }
    else record s { effective = o }
