-- ===== src/Vncast.antt =====
-- `vncast::ClientConnection` of src/rmioc/vncast_client.cpp and vncast_client.hpp: the client's end
-- of the cast protocol. The bytes that it sends are kept in order.
pub mod Pixel
pub mod Convert
pub mod Send
pub mod Handshake
mod Tests
use rmcast.Base.{ℕ, List, Bool}
use rmcast.Base.Int.{ℤ}

pub record Connection : Type 0 where
  pub w : ℕ
  pub h : ℕ
  pub stride : ℕ
  pub bpp : ℕ
  pub format : ℕ
  pub seq : ℕ
  pub shm_name : List ℕ
  pub shm : List ℕ
  pub shadow : List ℕ
  pub force_grayscale : Bool
  pub cursor_x : ℤ
  pub cursor_y : ℤ
  pub cursor_w : ℕ
  pub cursor_h : ℕ
  pub cursor_visible : Bool
  pub sent : List ℕ
