-- ===== src/Manager.antt =====
-- The state of the framebuffer manager of the middleware
-- (middleware/extension/src/qtfb/fbmanagement.h, common.h) and of the controllers that it talks to
-- (FBController.h in the same folder).
pub mod Controller
pub mod Input
pub mod Maps
pub mod Memory
pub mod Registry
pub mod Tests
pub mod Clients
use rmcast.Base.{ℕ, List, [], ◌∷◌, Option, Bool, if◌then◌else◌, ◌==◌}
use rmcast.Base.Int.{ℤ, pos, negsuc, eq_ℤ}

-- A `std::map` with `int` keys, and what is known of the objects with a number.
abbrev pub Keyed {ℓ} : Type ℓ → Type ℓ
Keyed V = ℤ → Option V

unfoldable pub put {ℓ} : {V : Type ℓ} → Keyed V → ℤ → Option V → Keyed V
put m k v j = if eq_ℤ j k then v else m j

unfoldable pub update {ℓ} : {V : Type ℓ} → (ℕ → V) → ℕ → V → ℕ → V
update f i v j = if j == i then v else f j

-- The formats of `QImage` that are used.
pub data Format : Type 0 where
  rgb16 rgb888 rgba8888 : Format

-- A `QImage` on memory that is mapped at `bits`.
pub record Image : Type 0 where
  pub bits : ℕ
  pub width : ℤ
  pub height : ℤ
  pub bytes_per_line : ℤ
  pub format : Format

-- `ClientBackend`; `none` is a null pointer. Nothing sets its `translationShm`.
pub record ClientBackend : Type 0 where
  pub shm_fd : ℤ
  pub shm_key : ℤ
  pub shm : Option ℕ
  pub image : Option Image
  pub shm_type : ℤ
  pub shm_size : ℕ
  pub connections : List ℕ

-- `ClientConnection`, on the stack of its client's thread.
pub record ClientConnection : Type 0 where
  pub client_fd : ℕ
  pub fb_key : ℤ

pub record QRect : Type 0 where
  pub x : ℤ
  pub y : ℤ
  pub width : ℤ
  pub height : ℤ

pub data Signal : Type 0 where
  active_changed drag_down request_full_refresh refresh_mode_changed : Signal

-- `FBController`, with the size of the item that it is, the signals that it has emitted and the
-- rectangles that it has asked to be painted.
pub record FbController : Type 0 where
  pub framebuffer_id : ℤ
  pub refresh_mode : ℤ
  pub is_active : Bool
  pub allow_scaling : Bool
  pub is_mid_paint : Bool
  pub checking_gesture_drag_down : Bool
  pub refreshed_screen_already : Bool
  pub image : Option Image
  pub item_width : ℤ
  pub item_height : ℤ
  pub emitted : List Signal
  pub updates : List QRect

pub record UserInputContents : Type 0 where
  pub input_type : ℕ
  pub dev_id : ℤ
  pub x : ℤ
  pub y : ℤ
  pub d : ℤ

-- `ServerMessage`, by its type.
pub data ServerMessage : Type 0 where
  initialized : (shm_key_defined : ℤ) (shm_size : ℕ) → ServerMessage
  user_input : UserInputContents → ServerMessage

-- `UpdateRegionMessageContents`
pub record UpdateRegion : Type 0 where
  pub type : ℤ
  pub x : ℤ
  pub y : ℤ
  pub w : ℤ
  pub h : ℤ

-- `ClientMessage`, by its type; `other` is any type that the switch does not know.
pub data ClientMessage : Type 0 where
  initialize : (framebuffer_key : ℤ) (framebuffer_type : ℕ) → ClientMessage
  custom_initialize : (framebuffer_key : ℤ) (framebuffer_type width height : ℕ) → ClientMessage
  update_region : UpdateRegion → ClientMessage
  terminate : ClientMessage
  set_refresh_mode : ℤ → ClientMessage
  request_full_refresh : ClientMessage
  other : ℕ → ClientMessage

-- The calls that wait in the event loop of the interface, each for the controller with a number.
pub data Posted : Type 0 where
  marked_update : ℕ → QRect → Posted
  refresh_mode_set : ℕ → ℤ → Posted
  full_refresh : ℕ → Posted
  shm_associated : ℕ → ℤ → Posted

-- What the system keeps: the names of shared memory objects, how many descriptors of such are
-- open, and the bytes of the memory that is mapped at an address.
pub record System : Type 0 where
  pub linked : ℤ → Bool
  pub open_descriptors : ℕ
  pub memory : ℕ → Option (List ℕ)

-- The two maps and all objects that they lead to. A controller that is `none` has been destroyed,
-- so a `QPointer` to it is null; a client that is `none` is a thread that has ended.
pub record Manager : Type 0 where
  pub framebuffers : Keyed ℕ
  pub connections : Keyed ClientBackend
  pub clients : ℕ → Option ClientConnection
  pub controllers : ℕ → Option FbController
  pub posted : List Posted
  pub sent : List (ℕ × ServerMessage)
  pub system : System
