-- ===== src/Screen.antt =====
-- src/app/screen.hpp: the state of `app::screen`, and the part of `rmioc::screen` that it sees.
-- A pixel is one cell of a buffer: every access of the code is of `bytes_per_pixel_` bytes at a
-- multiple of that number, and `get_bits_per_pixel` is 16 on both backends.
pub mod Blit
pub mod Input
pub mod Repaint
pub mod Damage
pub mod Setup
pub mod Run
mod Tests
use rmcast.Base.{ℕ, List, [], ◌∷◌, ◌++◌, Bool}
use rmcast.Base.Int.{ℤ, pos}
use rmcast.Orientation.{Orientation}

pub record Rect : Type 0 where
  pub x : ℤ
  pub y : ℤ
  pub w : ℤ
  pub h : ℤ

abbrev pub zero_rect : Rect
zero_rect = record { x = pos 0; y = pos 0; w = pos 0; h = pos 0 }

-- A call of `device.update(x, y, w, h, mode)`.
pub record Update : Type 0 where
  pub rect : Rect
  pub mode : ℕ

-- `rmioc::screen`: the panel's resolution, the pixels behind `get_data`, and the updates that it
-- was asked for, the oldest first.
pub record Device : Type 0 where
  pub xres : ℤ
  pub yres : ℤ
  pub pixels : List ℕ
  pub updates : List Update

unfoldable pub device_update : Device → Rect → ℕ → Device
device_update d r mode = record d { updates = d.updates ++ record { rect = r; mode = mode } ∷ [] }

-- `update_info_struct`
pub record UpdateInfo : Type 0 where
  pub rect : Rect
  pub has_update : Bool

pub data RepaintMode : Type 0 where
  standard fast : RepaintMode

-- Times are in nanoseconds, delays in milliseconds.
pub record Screen : Type 0 where
  pub device : Device
  pub update_info : UpdateInfo
  pub last_repaint : ℕ
  pub repaint_mode : RepaintMode
  pub standard_repaint_delay : ℕ
  pub fast_repaint_delay : ℕ
  pub standard_waveform_mode : ℕ
  pub fast_waveform_mode : ℕ
  pub requested : Orientation
  pub effective : Orientation
  pub src_buffer : List ℕ
  pub src_width : ℤ
  pub src_height : ℤ
